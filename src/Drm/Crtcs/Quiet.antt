-- ===== src/Drm/Crtcs/Quiet.antt =====
-- What recheckCRTCs of src/backend/drm/DRM.cpp leaves alone.

use aquamarine.Common.{
  All-snoc, ℕ, ◌+◌, ◌≡◌, refl, true, Option, none, some, List, [], ◌∷◌, arith, All, Bool-cases, inl,
  inr,
}
use aquamarine.Drm.{is_connected, Connector}
use aquamarine.Drm.Crtcs.{
  Entry, Pass, start, taken, is_enabled, assign, record_pick, slot, slots, state_events, finish,
  recheck_crtcs,
}
use aquamarine.Drm.Crtcs.Exclusive.{IsFresh, start-IsFresh, slot-IsFresh}

-- What the side effects touch: an output that is committed belongs to a connector with no CRTC,
-- and a connector that has changed is connected.
abbrev IsQuiet : Pass → Type 0
IsQuiet p = All (λ c. c.crtc ≡ none) p.commits × All (λ c. is_connected c.status ≡ true) p.changed

assign_picked :
    (i x : ℕ) (es : List Entry) {c : Connector}
    → All IsFresh es
    → (assign i x es).1 ≡ some c
    → (c.crtc ≡ none) × (is_connected c.status ≡ true)
unfolding assign
assign_picked i x [] f h = absurd (ground arith)
assign_picked i x (e ∷ es) {c = c} f h = ground (arith, assign_picked i x es {c = c} f.1, f.0)

pick-IsQuiet :
    (x : ℕ) (p : Pass) (r : List Entry × Option Connector)
    → ((c : Connector) → r.1 ≡ some c → (c.crtc ≡ none) × (is_connected c.status ≡ true))
    → IsQuiet p
    → IsQuiet (record_pick x p r)
pick-IsQuiet x p (es, none) h q = q
pick-IsQuiet x p (es, some c) h q = elim (Bool-cases (is_enabled c.output)) [
  | inl old ↦
      rw old (All-snoc _ p.commits _ q.0 (h c refl).0, All-snoc _ p.changed _ q.1 (h c refl).1)
  | inr unused ↦ rw unused (q.0, All-snoc _ p.changed _ q.1 (h c refl).1)
]

slot-IsQuiet : (i x : ℕ) (p : Pass) → All IsFresh p.entries → IsQuiet p → IsQuiet (slot i x p)
unfolding slot
slot-IsQuiet i x p f q = elim (Bool-cases (taken x p.entries)) [
  | inl busy ↦ rw busy q
  | inr free ↦
      rw free
        (pick-IsQuiet x p (assign i x p.entries) (λ c h. assign_picked i x p.entries {c = c} f h) q)
]

slots-IsQuiet :
    (i : ℕ) (xs : List ℕ) (p : Pass) → All IsFresh p.entries → IsQuiet p → IsQuiet (slots i xs p)
unfolding slots
slots-IsQuiet i [] p f q = q
slots-IsQuiet i (x ∷ xs) p f q =
    slots-IsQuiet (i + 1) xs (slot i x p) (slot-IsFresh i x p f) (slot-IsQuiet i x p f q)

no_state_events :
    (cs : List Connector) → All (λ c. is_connected c.status ≡ true) cs → state_events cs ≡ []
unfolding state_events
no_state_events [] h = refl
no_state_events (c ∷ cs) h = ground (arith, no_state_events cs h.1, h.0)

start-IsQuiet : (cs : List Connector) → IsQuiet (start cs)
unfolding start
start-IsQuiet cs = (tt, tt)

finish_quiet :
    (p : Pass) → IsQuiet p → ((finish p).events ≡ []) × All (λ c. c.crtc ≡ none) (finish p).commits
finish_quiet p q = (no_state_events p.changed q.1, q.0)

-- `recheckCRTCs` sends no state event, although its last loop is there to send them; and each
-- output that it commits belongs to a connector with no CRTC, so that the commit is refused.
pub recheck_quiet :
    (cs : List Connector) (crtcs : List ℕ)
    → ((recheck_crtcs cs crtcs).events ≡ [])
      × All (λ c. c.crtc ≡ none) (recheck_crtcs cs crtcs).commits
unfolding recheck_crtcs
recheck_quiet [] crtcs = (refl, tt)
recheck_quiet (c ∷ cs) [] = (refl, tt)
recheck_quiet (c ∷ cs) (x ∷ xs) =
    finish_quiet (slots 0 (x ∷ xs) (start (c ∷ cs)))
      (slots-IsQuiet 0 (x ∷ xs) (start (c ∷ cs)) (start-IsFresh (c ∷ cs)) (start-IsQuiet (c ∷ cs)))
