-- ===== src/Drm/Atomic/Sent.antt =====
-- What the requests of src/backend/drm/impl/Atomic.cpp send to the kernel.
use aquamarine.Common.{
  All-append, append_nil, Bool, true, false, not, ◌&&◌, ◌||◌, Option, none, some, List, [], ◌∷◌,
  ◌++◌, ◌==◌, if◌then◌else◌, ◌≡◌, ◌⊎◌, refl, sym, ap, All, Bool-cases, inl, inr,
}
use aquamarine.Drm.Atomic.{enables, present, add, add_connector, each, reset_request, commit}
use aquamarine.Drm.Props.{Entry, Request, PlaneProps, CrtcProps, ConnectorProps, State, Data}
use aquamarine.Drm.Atomic.Entries.{entry, only, ◌⊕◌, off, modeset, cursor, wanted_off, wanted}
use aquamarine.Drm.Atomic.Wanted.{add_all, add_connector-wanted, plane_props-Adds}

abbrev pub empty : Request
empty = record { failed = false; entries = [] }

-- An entry that the kernel has an object and a property for.
abbrev pub is_valid : Entry → Bool
is_valid e = not (e.object == 0 || e.property == 0)

abbrev pub valid : List Entry → List Entry
valid [] = []
valid (e ∷ rest) = let others = valid rest in if is_valid e then e ∷ others else others

append_one :
    (xs : List Entry) (e : Entry) (ys : List Entry) → (xs ++ (e ∷ [])) ++ ys ≡ xs ++ (e ∷ ys)
append_one [] e ys = refl
append_one (x ∷ xs) e ys = ap (◌∷◌ x) (append_one xs e ys)

-- libdrm has memory for everything.
abbrev pub roomy : List Entry → Entry → Bool
roomy es e = true

add_all_valid :
    (xs : List Entry) (es : List Entry)
    → add_all roomy xs (record { failed = false; entries = es })
      ≡ record { failed = false; entries = es ++ valid xs }
unfolding add
add_all_valid [] es = ap (λ l. record { failed = false; entries = l }) (sym (append_nil es))
add_all_valid (x ∷ xs) es = elim (Bool-cases (x.object == 0 || x.property == 0)) [
  | inl bad ↦ rw bad (add_all_valid xs es)
  | inr good ↦ rw (good, ← append_one es x (valid xs)) (add_all_valid xs (es ++ (x ∷ [])))
]

-- Where libdrm has memory, what the kernel is asked for a connector is just the list that
-- `wanted` gives for its state, in its order, without the entries of objects or properties that
-- the kernel does not have; and the commit succeeds just when the kernel accepts that list.
pub commit-add_connector :
    (accepts : List Entry → Bool) (c : ConnectorProps) (st : State) (d : Data)
    → commit accepts (add_connector roomy c st d empty) ≡ accepts (valid (wanted c st d))
unfolding commit
commit-add_connector accepts c st d =
    rw (add_connector-wanted roomy c st d empty, add_all_valid (wanted c st d) []) refl

module _ (P : Entry → Type 0) where
  All-only : (b : Bool) (xs : List Entry) → All P xs → All P (only b xs)
  All-only true xs a = a
  All-only false xs a = tt

  All-else : (b : Bool) (xs ys : List Entry) → b ≡ false → All P ys → All P (if b then xs else ys)
  All-else b xs ys h a = rw h a

  module _ (takes : List Entry → Entry → Bool) where
    -- What holds of everything added holds of the request.
    add-All : (e : Entry) (r : Request) → P e → All P r.entries → All P (add takes e r).entries
    unfolding add
    add-All e r p a = elim (Bool-cases r.failed) [
      | inl bad ↦ rw bad a
      | inr good ↦ elim (Bool-cases (e.object == 0 || e.property == 0)) [
        | inl invalid ↦ rw (good, invalid) a
        | inr fine ↦ elim (Bool-cases (takes r.entries e)) [
          | inl taken ↦ rw (good, fine, taken) (All-append P r.entries (e ∷ []) a (p, tt))
          | inr full ↦ rw (good, fine, full) a
        ]
      ]
    ]

    add_all-All :
        (xs : List Entry) (r : Request)
        → All P xs
        → All P r.entries
        → All P (add_all takes xs r).entries
    add_all-All [] r a b = b
    add_all-All (x ∷ xs) r a b = add_all-All xs (add takes x r) a.1 (add-All x r a.0 b)

-- An entry of 0, or of the mode's blob
abbrev pub TurnsOff : ConnectorProps → Data → Entry → Type 0
TurnsOff c d e = (e.value ≡ 0) ⊎ (e ≡ entry c.crtc.id c.crtc.mode_id d.mode_blob)

off-TurnsOff : (p : PlaneProps) (c : ConnectorProps) (d : Data) → All (TurnsOff c d) (off p 0 0)
off-TurnsOff p c d = (inl refl, (inl refl, (inl refl, (inl refl, tt))))

cursor-TurnsOff :
    (o : Option PlaneProps) (c : ConnectorProps) (st : State) (d : Data)
    → enables st d ≡ false
    → All (TurnsOff c d) (cursor o c st d)
cursor-TurnsOff none c st d h = tt
cursor-TurnsOff (some p) c st d h = rw h (off-TurnsOff p c d)

modeset-TurnsOff :
    (c : ConnectorProps) (st : State) (d : Data) → All (TurnsOff c d) (modeset c st d)
modeset-TurnsOff c st d = All-only P d.modeset _ (
  inr refl,
  All-only P (enables st d && present c.link_status) (entry c.id c.link_status 0 ∷ [])
      (inl refl, tt),
)
  where
    P : Entry → Type 0
    P = TurnsOff c d

wanted_off-TurnsOff :
    (c : ConnectorProps) (st : State) (d : Data)
    → enables st d ≡ false
    → All (TurnsOff c d) (wanted_off c st d)
wanted_off-TurnsOff c st d h =
    join _ _
      (join _ _
        (join _ _
          (join _ _ (join _ _ (modeset-TurnsOff c st d) (cursor-TurnsOff c.crtc.cursor c st d h))
            (inl refl, tt))
          tt)
        (inl refl, tt))
      (off-TurnsOff c.crtc.primary c d)
  where
    P : Entry → Type 0
    P = TurnsOff c d

    join : (xs ys : List Entry) → All P xs → All P ys → All P (xs ⊕ ys)
    join xs ys a b = All-append P xs ys a b

-- The request for an output that is off, disabled or without a framebuffer, only turns things
-- off, whatever of it libdrm makes place for: each value is 0, but for the blob of the mode.
pub add_connector-TurnsOff :
    (takes : List Entry → Entry → Bool) (c : ConnectorProps) (st : State) (d : Data)
    → enables st d ≡ false
    → All (TurnsOff c d) (add_connector takes c st d empty).entries
add_connector-TurnsOff takes c st d h = simp (add_connector-wanted takes c st d empty) (
    add_all-All (TurnsOff c d) takes (wanted c st d) empty
      (All-else (TurnsOff c d) (enables st d) _ _ h (wanted_off-TurnsOff c st d h)) tt)

-- A value of 0
abbrev pub IsZero : Entry → Type 0
IsZero e = e.value ≡ 0

module _ (takes : List Entry → Entry → Bool) where
  each-IsZero :
      {A : Type 0} (f : A → Request → Request) (xs : List A) (r : Request)
      → ((a : A) (q : Request) → All IsZero q.entries → All IsZero (f a q).entries)
      → All IsZero r.entries
      → All IsZero (each f xs r).entries
  each-IsZero f [] r step a = a
  each-IsZero f (x ∷ xs) r step a = each-IsZero f xs (f x r) step (step x r a)

  -- The request that resets the device, over any CRTCs, connectors and planes, holds nothing but
  -- zeros, whatever of it libdrm makes place for.
  pub reset_request-IsZero :
      (crtcs : List CrtcProps) (connectors : List ConnectorProps) (planes : List PlaneProps)
      → All IsZero (reset_request takes crtcs connectors planes empty).entries
  unfolding reset_request
  reset_request-IsZero crtcs connectors planes =
      each-IsZero _ planes _
        (λ p q a.
          rw ((plane_props-Adds takes p none 0 0 0).same q)
            (add_all-All IsZero takes (off p 0 0) q (refl, (refl, (refl, (refl, tt)))) a))
        (each-IsZero _ connectors _
          (λ c q a. add-All IsZero takes (entry c.id c.crtc_id 0) q refl a)
          (each-IsZero _ crtcs empty
            (λ c q a.
              add-All IsZero takes (entry c.id c.active 0) _ refl
                (add-All IsZero takes (entry c.id c.mode_id 0) q refl a))
            tt))
