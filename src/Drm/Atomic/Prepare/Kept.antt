-- ===== src/Drm/Atomic/Prepare/Kept.antt =====
-- What apply and rollback of src/backend/drm/impl/Atomic.cpp leave of the blobs that a commit made.
use aquamarine.Common.{
  ℕ, Bool, true, false, not, ◌&&◌, ◌||◌, if◌then◌else◌, ◌≡◌, ◌≢◌, refl, ◌∙◌, arith,
}
use aquamarine.Drm.Atomic.Prepare.{Wish, Made, finish_commit}
use aquamarine.Drm.Blobs.{CrtcBlobs, DataBlobs, Live, apply, rollback}
use aquamarine.Drm.Blobs.Lifetime.{is_new, is_current, rollback_keeps}

apply_keeps :
    (d : DataBlobs) (c : CrtcBlobs) (live : Live) (x : ℕ)
    → x ≢ 0
    → is_new d x ≡ false
    → is_current c x ≡ false
    → (apply d c live).1 x ≡ live x
unfolding apply
apply_keeps d c live x real old other = ground arith

apply_current :
    (d : DataBlobs) (c : CrtcBlobs) (live : Live) (x : ℕ)
    → x ≢ 0
    → is_new d x ≡ false
    → is_current c x ≡ false
    → is_current (apply d c live).0 x ≡ false
unfolding apply
apply_current d c live x real old other = ground arith

rollback_current :
    (d : DataBlobs) (c : CrtcBlobs) (live : Live) (x : ℕ)
    → is_current c x ≡ false
    → is_current (rollback d c live).0 x ≡ false
unfolding rollback
rollback_current d c live x other = other

-- The blob that is not the commit's, nor the CRTC's, stays, and does not become the CRTC's.
finish_commit-keeps :
    (blobbed accepted : Bool) (m : Made) (c : CrtcBlobs) (x : ℕ)
    → x ≢ 0
    → m.live x ≡ true
    → is_new (record m.blobs { blobbed = blobbed }) x ≡ false
    → is_current c x ≡ false
    → let (ok, kept, live) = finish_commit blobbed accepted m c in
      (live x ≡ true) × (is_current kept x ≡ false)
unfolding finish_commit
finish_commit-keeps blobbed true m c x real here old other =
    (apply_keeps _ c m.live x real old other ∙ here, apply_current _ c m.live x real old other)
finish_commit-keeps blobbed false m c x real here old other =
    (rollback_keeps _ c m.live x old ∙ here, rollback_current _ c m.live x other)

-- The same for the whole of a commit whose preparation went well or not
pub finished :
    (ok blobbed accepted : Bool) (m : Made) (c : CrtcBlobs) (x : ℕ)
    → x ≢ 0
    → m.live x ≡ true
    → is_new (record m.blobs { blobbed = blobbed }) x ≡ false
    → is_current c x ≡ false
    → let (done, kept, live) =
        if ok then finish_commit blobbed accepted m c else (false, c, m.live) in
      (live x ≡ true) × (is_current kept x ≡ false)
finished true blobbed accepted m c x real here old other =
    finish_commit-keeps blobbed accepted m c x real here old other
finished false blobbed accepted m c x real here old other = (here, other)

all_named :
    (a b c d e : Bool)
    → ((e || (d || (c || (b || (a || false))))) && not ((true && a) || (b || (c || (d || e)))))
      ≡ false
all_named true b c d e = ground arith
all_named false true c d e = ground arith
all_named false false true d e = ground arith
all_named false false false d e = ground arith

abbrev pub or_else : Bool → Bool → Bool
or_else a b = a || b

pub named_chain :
    (a b c d e l0 l1 l2 l3 l4 l5 : Bool)
    → l0 ≡ false
    → l1 ≡ (a || l0)
    → l2 ≡ (b || l1)
    → l3 ≡ (c || l2)
    → l4 ≡ (d || l3)
    → l5 ≡ (e || l4)
    → (l5 && not ((true && a) || (b || (c || (d || e))))) ≡ false
named_chain a b c d e l0 l1 l2 l3 l4 l5 h0 h1 h2 h3 h4 h5 =
    rw (h5, h4, h3, h2, h1, h0) (all_named a b c d e)

pub unblobbed :
    (w : Wish)
    → w.enabled ≡ true
    → w.has_fb ≡ true
    → w.modeset ≡ true
    → (false || (w.modeset && (not (w.enabled && w.has_fb) || false))) ≡ false
unblobbed w on shown changes = rw (on, shown, changes) refl
