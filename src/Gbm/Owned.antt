-- ===== src/Gbm/Owned.antt =====
-- Who closes what of a buffer of src/allocator/GBM.cpp: what a buffer owns, what of it the use of its
-- mapping leaves, and its destruction.
use aquamarine.Common.{
  ℕ, suc, ◌+◌, Bool, true, false, Option, none, some, List, [], ◌∷◌, ◌++◌, is_some, if◌then◌else◌,
  ◌≡◌, refl, sym, ap, ◌∙◌, arith, append_nil, append_assoc,
}
use aquamarine.Gbm.Buffers.{
  Held, Buffer, close_all, unmade, destroy, destroy_bo, begin_data_ptr, end_data_ptr,
}

-- Between two moments all that was opened was closed, all that was made was destroyed, and all that
-- was mapped was unmapped, in this order each.
pub record IsSettled (h h' : Held) : Type 0 where
  pub fds : List ℕ
  pub bos : List ℕ
  pub times : ℕ
  pub opened : h'.opened ≡ h.opened ++ fds
  pub closed : h'.closed ≡ h.closed ++ fds
  pub created : h'.created ≡ h.created ++ bos
  pub destroyed : h'.destroyed ≡ h.destroyed ++ bos
  pub maps : h'.maps ≡ h.maps + times
  pub unmaps : h'.unmaps ≡ h.unmaps + times

abbrev pub bos_of : Option ℕ → List ℕ
bos_of none = []
bos_of (some b) = b ∷ []

-- The same but for what a buffer has: `gone` are the descriptors that were closed already.
pub record Owns (b : Buffer) (h h' : Held) : Type 0 where
  pub gone : List ℕ
  pub times : ℕ
  pub opened : h'.opened ≡ h.opened ++ (gone ++ b.fds)
  pub closed : h'.closed ≡ h.closed ++ gone
  pub created : h'.created ≡ h.created ++ bos_of b.bo
  pub destroyed : h'.destroyed ≡ h.destroyed
  pub maps : h'.maps ≡ h.maps + (times + (if b.mapping then 1 else 0))
  pub unmaps : h'.unmaps ≡ h.unmaps + times
  pub mapped_bo : b.mapping ≡ true → is_some b.bo ≡ true
  pub same : b.mapping ≡ b.data_ptr

abbrev pub Owned : Held → Buffer × Held → Type 0
Owned h r = Owns r.0 h r.1

pub Owned-if :
    (h : Held) (b : Bool) (x y : Buffer × Held)
    → Owned h x
    → Owned h y
    → Owned h (if b then x else y)
Owned-if h true x y p q = p
Owned-if h false x y p q = q

pub IsSettled-refl : (h : Held) → IsSettled h h
IsSettled-refl h = record {
  fds = [];
  bos = [];
  times = 0;
  opened = sym (append_nil h.opened);
  closed = sym (append_nil h.closed);
  created = sym (append_nil h.created);
  destroyed = sym (append_nil h.destroyed);
  maps = omega arith;
  unmaps = omega arith;
}

pub unmade-Owns : (format : ℕ) (h : Held) → Owns (unmade format) h h
unmade-Owns format h = record {
  gone = [];
  times = 0;
  opened = sym (append_nil h.opened);
  closed = sym (append_nil h.closed);
  created = sym (append_nil h.created);
  destroyed = refl;
  maps = omega arith;
  unmaps = omega arith;
  mapped_bo = λ p. absurd (cc p);
  same = refl;
}

-- `gone` and the descriptors of the buffer are what was opened and is closed in the end.
destroy_bo-IsSettled :
    (bo : Option ℕ) (mapping : Bool) (gone fds : List ℕ) (times : ℕ) (h h' : Held)
    → h'.opened ≡ h.opened ++ (gone ++ fds)
    → h'.closed ≡ h.closed ++ gone
    → h'.created ≡ h.created ++ bos_of bo
    → h'.destroyed ≡ h.destroyed
    → h'.maps ≡ h.maps + (times + (if mapping then 1 else 0))
    → h'.unmaps ≡ h.unmaps + times
    → (mapping ≡ true → is_some bo ≡ true)
    → IsSettled h (destroy_bo bo mapping (close_all fds h'))
destroy_bo-IsSettled none true gone fds times h h' op cl cr de ma un mb = absurd (cc (mb refl))
destroy_bo-IsSettled none false gone fds times h h' op cl cr de ma un mb = record {
  fds = gone ++ fds;
  bos = [];
  times = times;
  opened = op;
  closed = rw cl (append_assoc h.closed gone fds);
  created = cr;
  destroyed = de ∙ sym (append_nil h.destroyed);
  maps = omega arith;
  unmaps = un;
}
destroy_bo-IsSettled (some b) false gone fds times h h' op cl cr de ma un mb = record {
  fds = gone ++ fds;
  bos = b ∷ [];
  times = times;
  opened = op;
  closed = rw cl (append_assoc h.closed gone fds);
  created = cr;
  destroyed = ap (λ (l : List ℕ). l ++ (b ∷ [])) de;
  maps = omega arith;
  unmaps = un;
}
destroy_bo-IsSettled (some b) true gone fds times h h' op cl cr de ma un mb = record {
  fds = gone ++ fds;
  bos = b ∷ [];
  times = suc times;
  opened = op;
  closed = rw cl (append_assoc h.closed gone fds);
  created = cr;
  destroyed = ap (λ (l : List ℕ). l ++ (b ∷ [])) de;
  maps = omega arith;
  unmaps = omega arith;
}

pub destroy-IsSettled : (b : Buffer) (h h' : Held) → Owns b h h' → IsSettled h (destroy b h')
unfolding destroy
destroy-IsSettled b h h' o =
    destroy_bo-IsSettled b.bo b.mapping o.gone b.fds o.times h h' o.opened o.closed o.created
      o.destroyed o.maps o.unmaps o.mapped_bo

-- What a user of a buffer does to it; `maps` says whether gbm can map it.
pub data Use : Type 0 where
  begins : Bool → Use
  ends : Use

pub use_one : Use → Buffer × Held → Buffer × Held
use_one (begins maps) (b, h) = begin_data_ptr maps b h
use_one ends (b, h) = end_data_ptr b h

pub use_all : List Use → Buffer × Held → Buffer × Held
use_all [] s = s
use_all (u ∷ us) s = use_all us (use_one u s)

-- A buffer object stays what it is.
use_one-bo : (u : Use) (s : Buffer × Held) → (use_one u s).0.bo ≡ s.0.bo
unfolding use_one begin_data_ptr end_data_ptr
use_one-bo (begins maps) (b, h) = ground arith
use_one-bo ends (b, h) = ground arith

begun : Buffer → Buffer
begun b = record b { data_ptr = true; mapping = true }

ended : Buffer → Buffer
ended b = record b { data_ptr = false; mapping = false }

module _ (b : Buffer) (h h' : Held) (o : Owns b h h') where
  -- `d` and `e` stand for boBuffer and gboMapping.
  begin-Owns :
      (d m : Bool)
      → b.mapping ≡ d
      → is_some b.bo ≡ true
      → Owned h (
          if d then (b, h') else if m then (begun b, record h' { maps = suc h'.maps }) else (b, h'))
  unfolding begun
  begin-Owns true m e there = o
  begin-Owns false false e there = o
  begin-Owns false true e there = record {
    gone = o.gone;
    times = o.times;
    opened = o.opened;
    closed = o.closed;
    created = o.created;
    destroyed = o.destroyed;
    maps = ground (arith, o.maps);
    unmaps = o.unmaps;
    mapped_bo = λ p. there;
    same = refl;
  }

  end-Owns :
      (e : Bool)
      → b.mapping ≡ e
      → Owned h (if e then (ended b, record h' { unmaps = suc h'.unmaps }) else (b, h'))
  unfolding ended
  end-Owns false e = o
  end-Owns true e = record {
    gone = o.gone;
    times = suc o.times;
    opened = o.opened;
    closed = o.closed;
    created = o.created;
    destroyed = o.destroyed;
    maps = ground (arith, o.maps);
    unmaps = omega (arith, o.unmaps);
    mapped_bo = λ p. absurd (cc p);
    same = refl;
  }

use_one-Owns :
    (u : Use) (b : Buffer) (h h' : Held)
    → is_some b.bo ≡ true
    → Owns b h h'
    → Owns (use_one u (b, h')).0 h (use_one u (b, h')).1
unfolding use_one begin_data_ptr end_data_ptr begun ended
use_one-Owns (begins m) b h h' there o = begin-Owns b h h' o b.data_ptr m o.same there
use_one-Owns ends b h h' there o = end-Owns b h h' o b.mapping refl

pub use_all-Owns :
    (us : List Use) (b : Buffer) (h h' : Held)
    → is_some b.bo ≡ true
    → Owns b h h'
    → Owns (use_all us (b, h')).0 h (use_all us (b, h')).1
unfolding use_all
use_all-Owns [] b h h' there o = o
use_all-Owns (u ∷ us) b h h' there o =
    use_all-Owns us (use_one u (b, h')).0 h (use_one u (b, h')).1
      (ap (λ (x : Option ℕ). is_some x) (use_one-bo u (b, h')) ∙ there)
      (use_one-Owns u b h h' there o)
