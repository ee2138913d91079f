-- ===== src/Session/Tools.antt =====
-- The tools of a tablet in src/backend/Session.cpp: toolFrom, and the tablet tool events of
-- handleLibinputEvent with handleLibinputTabletToolAxis. A tool of libinput is a number, and so is
-- the object that stands for it; the coordinates and times of the events are left out.
pub mod Announced
use aquamarine.Common.{
  ℕ, suc, ◌+◌, ◌≤◌, ◌<◌, Bool, true, false, not, ◌&&◌, Option, none, some, List, [], ◌∷◌, ◌++◌,
  ◌==◌, ltb, if◌then◌else◌, ◌≡◌, refl, arith, count, count-snoc, All, Bool-cases, Option-cases, inl,
  inr,
}

pub record Tool : Type 0 where
  pub object : ℕ
  pub libinput_tool : ℕ

-- An event of the backend or of the tablet, with the object of its tool
pub data Emitted : Type 0 where
  new_tool proximity axis tip button : ℕ → Emitted

-- `next` is the number of the next object, and `ready` that of the backend.
pub record Tablet : Type 0 where
  pub ready : Bool
  pub tools : List Tool
  pub next : ℕ
  pub emitted : List Emitted

pub find_tool : ℕ → List Tool → Option ℕ
find_tool t [] = none
find_tool t (x ∷ xs) = if x.libinput_tool == t then some x.object else find_tool t xs

abbrev pub emit : Emitted → Tablet → Tablet
emit e s = record s { emitted = s.emitted ++ (e ∷ []) }

abbrev pub add_tool : ℕ → Tablet → Tablet
add_tool t s = record s {
  tools = s.tools ++ (record { object = s.next; libinput_tool = t } ∷ []);
  next = suc s.next;
}

abbrev pub found_or_new : Option ℕ → ℕ → Tablet → ℕ × Tablet
found_or_new (some o) t s = (o, s)
found_or_new none t s =
    (s.next, if s.ready then emit (new_tool s.next) (add_tool t s) else add_tool t s)

unfoldable pub tool_from : ℕ → Tablet → ℕ × Tablet
unfolding find_tool
tool_from t s = found_or_new (find_tool t s.tools) t s

-- handleLibinputTabletToolAxis
unfoldable pub handle_axis : ℕ → Tablet → Tablet
unfolding tool_from
handle_axis t s = let r = tool_from t s in emit (axis r.0) r.1

-- `std::erase` of the object
pub erase_tool : ℕ → List Tool → List Tool
erase_tool o [] = []
erase_tool o (x ∷ xs) = let rest = erase_tool o xs in if x.object == o then rest else x ∷ rest

abbrev pub leave : Bool → ℕ → Tablet → Tablet
leave true o s = s
leave false o s = record s { tools = erase_tool o s.tools }

-- An event of libinput for one of its tools: whether it comes near, and whether it is unique
pub data ToolEvent : Type 0 where
  comes_near leaves : ℕ → Bool → ToolEvent
  moves touches presses : ℕ → ToolEvent

unfoldable pub handle : ToolEvent → Tablet → Tablet
unfolding handle_axis tool_from erase_tool
handle (comes_near t unique) s = let r = tool_from t s in handle_axis t (emit (proximity r.0) r.1)
handle (leaves t unique) s = let r = tool_from t s in leave unique r.0 (emit (proximity r.0) r.1)
handle (moves t) s = handle_axis t s
handle (touches t) s = let r = tool_from t s in emit (tip r.0) (handle_axis t r.1)
handle (presses t) s = let r = tool_from t s in emit (button r.0) (handle_axis t r.1)

unfoldable pub handle_all : List ToolEvent → Tablet → Tablet
unfolding handle
handle_all [] s = s
handle_all (e ∷ es) s = handle_all es (handle e s)

-- The libinput tools of a tablet, and the objects that events announce and that they name
unfoldable pub sources : List Tool → List ℕ
sources [] = []
sources (x ∷ xs) = x.libinput_tool ∷ sources xs

abbrev news_of : Emitted → List ℕ
news_of (new_tool o) = o ∷ []
news_of (proximity o) = []
news_of (axis o) = []
news_of (tip o) = []
news_of (button o) = []

unfoldable pub news : List Emitted → List ℕ
news [] = []
news (e ∷ es) = news_of e ++ news es

abbrev pub named : Emitted → ℕ
named (new_tool o) = o
named (proximity o) = o
named (axis o) = o
named (tip o) = o
named (button o) = o

-- In the list a tool of libinput has one object at most; each object so far was announced once; and
-- events name no others.
pub record IsAnnounced (s : Tablet) : Type 0 where
  pub ready : s.ready ≡ true
  pub once : (t : ℕ) → count t (sources s.tools) ≤ 1
  pub announced : (o : ℕ) → count o (news s.emitted) ≡ (if ltb o s.next then 1 else 0)
  pub known : All (λ e. named e < s.next) s.emitted
  pub objects : All (λ x. x.object < s.next) s.tools
