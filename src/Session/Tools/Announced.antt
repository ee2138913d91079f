-- ===== src/Session/Tools/Announced.antt =====
-- Which objects the events of a tablet's tools name, in src/backend/Session.cpp.
use aquamarine.Common.{
  All-snoc, All-map, ℕ, suc, ◌+◌, ◌≤◌, ◌<◌, Bool, true, false, Option, none, some, List, [], ◌∷◌,
  ◌++◌, ◌==◌, if◌then◌else◌, ◌≡◌, refl, arith, count, All,
}
use aquamarine.Session.Tools.{
  Tool, Emitted, new_tool, proximity, axis, tip, button, Tablet, find_tool, emit, found_or_new,
  tool_from, handle_axis, erase_tool, leave, ToolEvent, comes_near, leaves, moves, touches, presses,
  handle, handle_all, sources, news_of, news, named, IsAnnounced,
}

-- An object that has a number already
abbrev Named : ℕ × Tablet → Type 0
Named r = IsAnnounced r.1 × (r.0 < r.1.next)

sources-snoc :
    (t : ℕ) (x : Tool) (xs : List Tool)
    → count t (sources (xs ++ (x ∷ [])))
      ≡ count t (sources xs) + (if t == x.libinput_tool then 1 else 0)
unfolding sources
sources-snoc t x [] = ground arith
sources-snoc t x (y ∷ xs) = ground (arith, sources-snoc t x xs)

news-snoc :
    (o : ℕ) (e : Emitted) (es : List Emitted)
    → count o (news (es ++ (e ∷ []))) ≡ count o (news es) + count o (news_of e)
unfolding news
news-snoc o (new_tool p) [] = ground arith
news-snoc o (proximity p) [] = ground arith
news-snoc o (axis p) [] = ground arith
news-snoc o (tip p) [] = ground arith
news-snoc o (button p) [] = ground arith
news-snoc o e (new_tool p ∷ es) = ground (arith, news-snoc o e es)
news-snoc o e (proximity p ∷ es) = news-snoc o e es
news-snoc o e (axis p ∷ es) = news-snoc o e es
news-snoc o e (tip p ∷ es) = news-snoc o e es
news-snoc o e (button p ∷ es) = news-snoc o e es

-- A tool that is not found is not there, and one that is has a number.
find_tool-none : (t : ℕ) (xs : List Tool) → find_tool t xs ≡ none → count t (sources xs) ≡ 0
unfolding find_tool sources
find_tool-none t [] h = refl
find_tool-none t (x ∷ xs) h = ground (arith, find_tool-none t xs)

find_tool-some :
    (t n o : ℕ) (xs : List Tool) → find_tool t xs ≡ some o → All (λ x. x.object < n) xs → o < n
unfolding find_tool
find_tool-some t n o [] h k = absurd (cc h)
find_tool-some t n o (x ∷ xs) h k = ground (arith, find_tool-some t n o xs, k.1)

found_or_new-Named :
    (f : Option ℕ) (t : ℕ) (s : Tablet)
    → find_tool t s.tools ≡ f
    → IsAnnounced s
    → Named (found_or_new f t s)
found_or_new-Named (some o) t s h i = (i, find_tool-some t s.next o s.tools h i.objects)
found_or_new-Named none t s h i = rw i.ready (
  record {
    ready = refl;
    once = λ u. ground (
      arith,
      sources-snoc u (record { object = s.next; libinput_tool = t }) s.tools,
      i.once u,
      find_tool-none t s.tools h,
    );
    announced = λ o. ground (arith, news-snoc o (new_tool s.next) s.emitted, i.announced o);
    known =
        All-snoc (λ e. named e < suc s.next) s.emitted (new_tool s.next)
          (All-map (λ e. named e < s.next) (λ e. named e < suc s.next) s.emitted
            (λ e p. omega arith) i.known)
          (omega arith);
    objects =
        All-snoc (λ x. x.object < suc s.next) s.tools _
          (All-map (λ x. x.object < s.next) (λ x. x.object < suc s.next) s.tools
            (λ x p. omega arith) i.objects)
          (omega arith);
  },
  omega arith,
)

tool_from-Named : (t : ℕ) (s : Tablet) → IsAnnounced s → Named (tool_from t s)
unfolding tool_from
tool_from-Named t s i = found_or_new-Named (find_tool t s.tools) t s refl i

-- An event that announces nothing, of an object that has a number
emit-IsAnnounced :
    (e : Emitted) (s : Tablet)
    → news_of e ≡ []
    → IsAnnounced s
    → named e < s.next
    → IsAnnounced (emit e s)
emit-IsAnnounced e s n i h = record {
  ready = i.ready;
  once = i.once;
  announced = λ o. rw (news-snoc, n) (omega (arith, i.announced o));
  known = All-snoc (λ e'. named e' < s.next) s.emitted e i.known h;
  objects = i.objects;
}

handle_axis-IsAnnounced : (t : ℕ) (s : Tablet) → IsAnnounced s → IsAnnounced (handle_axis t s)
unfolding handle_axis
handle_axis-IsAnnounced t s i =
    let r = tool_from-Named t s i in emit-IsAnnounced (axis (tool_from t s).0) _ refl r.0 r.1

-- Objects do not lose their numbers.
found_or_new-next : (f : Option ℕ) (t : ℕ) (s : Tablet) → s.next ≤ (found_or_new f t s).1.next
found_or_new-next (some o) t s = omega arith
found_or_new-next none t s = ground arith

handle_axis-next : (t : ℕ) (s : Tablet) → s.next ≤ (handle_axis t s).next
unfolding handle_axis tool_from
handle_axis-next t s = found_or_new-next (find_tool t s.tools) t s

count-erase_tool :
    (t o : ℕ) (xs : List Tool) → count t (sources (erase_tool o xs)) ≤ count t (sources xs)
unfolding erase_tool sources
count-erase_tool t o [] = omega arith
count-erase_tool t o (x ∷ xs) = ground (arith, count-erase_tool t o xs)

All-erase_tool :
    (n o : ℕ) (xs : List Tool)
    → All (λ x. x.object < n) xs
    → All (λ x. x.object < n) (erase_tool o xs)
unfolding erase_tool
All-erase_tool n o [] h = tt
All-erase_tool n o (x ∷ xs) h = ground (arith, All-erase_tool n o xs h.1)

leave-IsAnnounced : (u : Bool) (o : ℕ) (s : Tablet) → IsAnnounced s → IsAnnounced (leave u o s)
leave-IsAnnounced true o s i = i
leave-IsAnnounced false o s i = record {
  ready = i.ready;
  once = λ t. omega (arith, count-erase_tool t o s.tools, i.once t);
  announced = i.announced;
  known = i.known;
  objects = All-erase_tool s.next o s.tools i.objects;
}

handle-IsAnnounced : (e : ToolEvent) (s : Tablet) → IsAnnounced s → IsAnnounced (handle e s)
unfolding handle
handle-IsAnnounced (comes_near t u) s i =
    let r = tool_from-Named t s i in
    handle_axis-IsAnnounced t _ (emit-IsAnnounced (proximity (tool_from t s).0) _ refl r.0 r.1)
handle-IsAnnounced (leaves t u) s i =
    let r = tool_from-Named t s i in
    leave-IsAnnounced u _ _ (emit-IsAnnounced (proximity (tool_from t s).0) _ refl r.0 r.1)
handle-IsAnnounced (moves t) s i = handle_axis-IsAnnounced t s i
handle-IsAnnounced (touches t) s i =
    let r = tool_from-Named t s i in
    emit-IsAnnounced (tip (tool_from t s).0) (handle_axis t (tool_from t s).1) refl
      (handle_axis-IsAnnounced t (tool_from t s).1 r.0)
      (omega (arith, handle_axis-next t (tool_from t s).1, r.1))
handle-IsAnnounced (presses t) s i =
    let r = tool_from-Named t s i in
    emit-IsAnnounced (button (tool_from t s).0) (handle_axis t (tool_from t s).1) refl
      (handle_axis-IsAnnounced t (tool_from t s).1 r.0)
      (omega (arith, handle_axis-next t (tool_from t s).1, r.1))

-- On one tablet, while the backend is ready and whatever tools come near, leave and do: at any
-- time a tool of libinput has one object at most in the tablet's list, each object that the tablet
-- made was announced by one event of a new tool, and no event of it names another. One that left
-- and came back, or that is used on another tablet, may get a new object.
pub handle_all-IsAnnounced :
    (es : List ToolEvent) (s : Tablet) → IsAnnounced s → IsAnnounced (handle_all es s)
unfolding handle_all
handle_all-IsAnnounced [] s i = i
handle_all-IsAnnounced (e ∷ es) s i =
    handle_all-IsAnnounced es (handle e s) (handle-IsAnnounced e s i)
