-- ===== src/Drm/Crtcs.antt =====
-- `CDRMBackend::recheckCRTCs` of src/backend/drm/DRM.cpp: which connector drives which CRTC.
pub mod Quiet
pub mod Exclusive
pub mod Choice
pub mod Complete
mod Tests
use aquamarine.Common.{
  ℕ, zero, suc, ◌+◌, Bool, true, false, not, ◌&&◌, ◌||◌, Option, none, some, List, [], ◌∷◌, ◌++◌,
  map, ◌==◌, if◌then◌else◌, test_bit, is_some,
}
use aquamarine.Drm.{
  Connection, connected, disconnected, unknown_connection, is_connected, Output, Connector,
}

-- A connector with a mark: it is in the vector `recheck`, whose order is that of `connectors`.
pub record Entry : Type 0 where
  pub conn : Connector
  pub recheck : Bool

-- `changed` holds each connector as it is after its assignment, and `commits` each one whose old
-- output is committed, as it is at that call.
pub record Pass : Type 0 where
  pub entries : List Entry
  pub changed : List Connector
  pub commits : List Connector

-- The first loop.
abbrev pub needs_recheck : Connector → Bool
needs_recheck c = not c.tiling_redundant && not (is_some c.crtc && is_connected c.status)

pub start : List Connector → Pass
start cs = record {
  entries = map (λ c. record { conn = c; recheck = needs_recheck c }) cs;
  changed = [];
  commits = [];
}

abbrev pub has_crtc : ℕ → Option ℕ → Bool
has_crtc x none = false
has_crtc x (some y) = x == y

-- Whether a connector keeps the CRTC `x` busy.
abbrev pub uses : ℕ → Connector → Bool
uses x c = has_crtc x c.crtc && (is_connected c.status && not c.tiling_redundant)

pub taken : ℕ → List Entry → Bool
taken x [] = false
taken x (e ∷ es) = uses x e.conn || taken x es

-- Whether the connector can be given the CRTC of slot `i`.
abbrev pub usable : ℕ → Entry → Bool
usable i e = e.recheck && (test_bit e.conn.possible_crtcs i && is_connected e.conn.status)

abbrev pub is_enabled : Option Output → Bool
is_enabled none = false
is_enabled (some o) = o.enabled

-- `state->setEnabled(false)` on the old output, if it is enabled.
abbrev pub disable : Option Output → Option Output
disable none = none
disable (some o) =
    if o.enabled then some (record o { enabled = false; enabled_committed = true }) else some o

abbrev pub assigned : ℕ → Connector → Connector
assigned x c = record c { crtc = some x; output = disable c.output }

-- The inner loop over `recheck`, for slot `i` with the CRTC `x`: the entries after it, and the
-- connector that was picked, as it was.
pub assign : ℕ → ℕ → List Entry → List Entry × Option Connector
assign i x [] = ([], none)
assign i x (e ∷ es) =
    let (rest, picked) = assign i x es in
    if usable i e
    then (record { conn = assigned x e.conn; recheck = false } ∷ es, some e.conn)
    else (e ∷ rest, picked)

abbrev pub record_pick : ℕ → Pass → List Entry × Option Connector → Pass
record_pick x p (es, none) = record p { entries = es }
record_pick x p (es, some c) = record p {
  entries = es;
  changed = p.changed ++ (assigned x c ∷ []);
  commits =
      if is_enabled c.output
      then p.commits ++ (record c { output = disable c.output } ∷ [])
      else p.commits;
}

pub slot : ℕ → ℕ → Pass → Pass
unfolding taken assign
slot i x p = if taken x p.entries then p else record_pick x p (assign i x p.entries)

-- The loop over `crtcs`, from slot `i` on.
pub slots : ℕ → List ℕ → Pass → Pass
unfolding slot
slots i [] p = p
slots i (x ∷ xs) p = slots (i + 1) xs (slot i x p)

-- The last loop: the connectors that are sent a state event.
pub state_events : List Connector → List ℕ
state_events [] = []
state_events (c ∷ cs) =
    let rest = state_events cs in
    if not (is_connected c.status) && is_some c.output then c.id ∷ rest else rest

pub record Rechecked : Type 0 where
  pub connectors : List Connector
  pub commits : List Connector
  pub events : List ℕ

abbrev pub connectors_of : List Entry → List Connector
connectors_of = map (λ e. e.conn)

abbrev pub finish : Pass → Rechecked
finish p = record {
  connectors = connectors_of p.entries;
  commits = p.commits;
  events = state_events p.changed;
}

pub recheck_crtcs : List Connector → List ℕ → Rechecked
unfolding start slots state_events
recheck_crtcs [] crtcs = record { connectors = []; commits = []; events = [] }
recheck_crtcs (c ∷ cs) [] = record { connectors = c ∷ cs; commits = []; events = [] }
recheck_crtcs (c ∷ cs) (x ∷ xs) = finish (slots 0 (x ∷ xs) (start (c ∷ cs)))
