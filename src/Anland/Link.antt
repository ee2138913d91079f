-- ===== src/Anland/Link.antt =====
-- The connection of src/backend/anland/AnlandBackend.cpp to its display: start, tryConnect, onReady,
-- enterFallback, onFallback, setupReconnectTimer, teardownReconnectTimer, onReconnectTimerFd,
-- createOutputIfNeeded, emitOutputIfReady, the timer's part of pollFDs, and shutdown.
-- What is called on the output is a list, in order; the audio and the camera are left out, but for
-- this: a request to the consumer that fails, the camera's or one of the output's, calls onFallback
-- before it returns. An output that is made is initialized, since the backend is not being destroyed
-- then.
pub mod Announced
pub mod Tried
pub mod Waiting
mod Tests
use aquamarine.Common.{
  ℕ, zero, suc, ◌+◌, Bool, true, false, not, ◌&&◌, ◌||◌, List, [], ◌∷◌, ◌++◌, if◌then◌else◌,
}

-- The calls on the output
pub data OutputCall : Type 0 where
  exits_fallback emits_frame schedules_frame enters_fallback releases_buffers : OutputCall

pub record Link : Type 0 where
  pub running : Bool
  pub in_fallback : Bool
  pub destroying : Bool
  pub has_display : Bool
  pub has_output : Bool
  pub output_emitted : Bool
  pub reconnect_pending : Bool
  pub timer : Bool
  pub new_outputs : ℕ
  pub polls_changed : ℕ
  pub calls : List OutputCall

-- What the world answers while a function runs: whether the daemon takes the connection, whether a
-- consumer is there at an attempt, whether the kernel makes a timer, and whether a request fails:
-- the camera's, number 0, or one made in the output's functions and in the handlers of its event,
-- 1, 2 and 3 in their order.
pub record World : Type 0 where
  pub daemon : Bool
  pub consumer : ℕ → Bool
  pub makes_timer : Bool
  pub falls : ℕ → Bool

abbrev pub call : List OutputCall → Link → Link
call xs l = if l.has_output then record l { calls = l.calls ++ xs } else l

unfoldable pub setup_timer : World → Link → Link
setup_timer w l =
    if l.reconnect_pending || l.destroying
    then l
    else record l { reconnect_pending = w.makes_timer; timer = w.makes_timer }

unfoldable pub teardown_timer : Link → Link
teardown_timer l = record l { reconnect_pending = false; timer = false }

unfoldable pub create_output : Link → Link
create_output l = if l.destroying then l else record l { has_output = true }

unfoldable pub emit_output : Link → Link
emit_output l =
    if l.has_output && (not l.output_emitted && not l.in_fallback)
    then record l { new_outputs = suc l.new_outputs; output_emitted = true }
    else l

-- enterFallback, which onFallback calls under the same guard
unfoldable pub enter_fallback : World → Link → Link
enter_fallback w l =
    if l.in_fallback || l.destroying
    then l
    else let l' = setup_timer w (
        call (enters_fallback ∷ releases_buffers ∷ [])
          (record l { in_fallback = true; output_emitted = false })) in
      record l' { polls_changed = suc l'.polls_changed }

-- A request, number `n`, that may fail
abbrev pub may_fall : World → ℕ → Link → Link
may_fall w n l = if w.falls n then enter_fallback w l else l

-- A call on the output with the requests made in it
abbrev pub tell : World → ℕ → OutputCall → Link → Link
tell w n x l = if l.has_output then may_fall w n (call (x ∷ []) l) else l

-- The loop: `left` attempts are left, of which `n` is the next. The time between two is 0.1 s.
unfoldable pub attempt : Bool → (ℕ → Bool) → ℕ → ℕ → Bool
attempt destroying consumer n zero = false
attempt destroying consumer n (suc left) =
    let later = attempt destroying consumer (suc n) left in
    if destroying then false else if consumer n then true else later

-- A consumer is there.
unfoldable pub connected : World → Link → Link
connected w l =
    let here = may_fall w 0 (record l { in_fallback = false }) in
    let told = tell w 3 schedules_frame (tell w 2 emits_frame (tell w 1 exits_fallback here)) in
    record told { polls_changed = suc told.polls_changed }

abbrev pub reached : World → Bool → Link → Bool × Link
reached w true l = (true, connected w l)
reached w false l = (false, l)

-- With a display
abbrev pub reach : World → Link → Bool × Link
reach w l = reached w (attempt l.destroying w.consumer 0 100) l

unfoldable pub try_connect : World → Link → Bool × Link
try_connect w l =
    if l.destroying
    then (false, l)
    else if l.has_display || w.daemon
    then reach w (create_output (record l { has_display = true }))
    else (false, l)

-- After the first try
abbrev pub started : World → Bool × Link → Link
started w (true, l) = l
started w (false, l) = setup_timer w l

unfoldable pub start : World → Link → Link
start w l =
    if l.running
    then l
    else started w (
        try_connect w
          (emit_output (create_output (record l { running = true; in_fallback = true }))))

unfoldable pub on_ready : World → Link → Link
on_ready w l =
    let l' = emit_output (create_output l) in
    if l'.in_fallback
    then l'
    else tell w 3 emits_frame (tell w 2 schedules_frame (tell w 1 exits_fallback l'))

abbrev pub reconnected : Bool × Link → Link
reconnected (true, l) = teardown_timer (record l { polls_changed = suc l.polls_changed })
reconnected (false, l) = l

unfoldable pub on_timer : World → Link → Link
on_timer w l =
    if not l.timer || l.destroying
    then l
    else if l.in_fallback
    then reconnected (try_connect w l)
    else l

-- The timer that pollFDs sets up where there is none
unfoldable pub poll_timer : World → Link → Link
poll_timer w l =
    if not l.running || l.destroying
    then l
    else if not l.timer && l.in_fallback
    then setup_timer w l
    else l

-- Only the first call does anything.
unfoldable pub shutdown : Link → Link
shutdown l =
    if l.destroying
    then l
    else record (call (releases_buffers ∷ []) (teardown_timer (record l { destroying = true }))) {
      has_output = false;
      has_display = false;
    }
