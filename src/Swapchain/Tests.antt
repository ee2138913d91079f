-- ===== src/Swapchain/Tests.antt =====
-- A swapchain on an allocator that numbers its buffers and has a fixed stock of them
-- (src/allocator/Swapchain.cpp): runs, and the properties at concrete inputs.
use aquamarine.Common.{
  ℕ, ◌+◌, ◌≡◌, ◌≢◌, refl, true, Option, none, some, [], ◌∷◌, arith, All, if◌then◌else◌, ltb,
}
use aquamarine.Common.Int.{pos}
use aquamarine.Swapchain.{
  Swapchain, Options, BufferParams, default_options, create, next, rollback, reconfigure, null,
  out_of_range, buffer,
}
use aquamarine.Swapchain.Validity.{IsValid}
use aquamarine.Swapchain.Rotation.{IsReady, next-rollback}
use aquamarine.Swapchain.History.{reconfigures, nexts, rollbacks, run, create-run_in_range}

-- The state is the next number; there are six buffers.
abbrev stock : ℕ → BufferParams → Options → Option ℕ × ℕ
stock n params current = if ltb n 6 then (some n, n + 1) else (none, n)

abbrev xrgb : ℕ → ℕ
xrgb b = 875713112

abbrev full_hd : Options
full_hd = record default_options {
  length = 3;
  size = record { x = 1920; y = 1080 };
  format = 875713112;
}

abbrev three : Swapchain ℕ
three = record {
  options = full_hd;
  allocator = true;
  buffers = 0 ∷ 1 ∷ 2 ∷ [];
  last_acquired = pos 0;
}

reconfigure_runs : reconfigure stock xrgb full_hd (create true) 0 ≡ (true, three, 3)
unfolding reconfigure create
reconfigure_runs = refl

run_example :
    run stock xrgb
      (create true)
      0
      (reconfigures full_hd ∷ nexts ∷ nexts ∷ rollbacks ∷ nexts ∷ nexts ∷ [])
    ≡ null ∷ buffer 1 ∷ buffer 2 ∷ null ∷ buffer 2 ∷ buffer 0 ∷ []
unfolding run create reconfigure next rollback
run_example = refl

three-IsValid : IsValid three
three-IsValid = ground arith

three-IsReady : IsReady three
three-IsReady = record { valid = three-IsValid; has_allocator = refl; not_empty = omega arith }

next-rollback_example : (next (rollback (next three).0)).2 ≡ (next three).2
next-rollback_example = (next-rollback three-IsReady).0

create-run_in_range_example :
    All
      (λ got. got ≢ out_of_range)
      (run stock xrgb (create true) 0 (reconfigures full_hd ∷ nexts ∷ []))
create-run_in_range_example =
    create-run_in_range stock xrgb true 0 (reconfigures full_hd ∷ nexts ∷ [])
      ((λ e. absurd (ground arith), omega arith), (tt, tt))
