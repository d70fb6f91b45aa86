-- ===== src/Process/Stop/Status.antt =====
-- The stop reason of each kind of wait status.
use kdebugger.Common.{
  ℕ, ◌+◌, ◌*◌, ◌/◌, ◌%◌, ◌≤◌, ◌<◌, ◌≡◌, ap, ◌∙◌, bit_and, Bool, true, false, ◌&&◌, none, some,
  if◌then◌else◌, ◌==◌, arith,
}
use kdebugger.Common.Bits.{bit_and_high, bit_and_low, low_byte}
use kdebugger.Process.Stop.{StopReason, stop_reason, stopped, exited, terminated, clone}

-- What the kernel reports of a thread.
pub data Report : Type 0 where
  exits : (code : ℕ) → Report
  is_killed : (signal : ℕ) (core : Bool) → Report
  stops : (signal event : ℕ) → Report

-- The wait status that encodes it.
abbrev pub status_of : Report → ℕ
status_of (exits code) = code * 256
status_of (is_killed signal core) = if core then signal + 128 else signal
status_of (stops signal event) = (event * 256 + signal) * 256 + 127

abbrev pub IsReport : Report → Type 0
IsReport (exits code) = code < 256
IsReport (is_killed signal core) = (1 ≤ signal) × (signal < 127)
IsReport (stops signal event) = (signal < 256) × (event < 256)

abbrev pub reason_of : ℕ → Report → StopReason
reason_of tid (exits code) = record {
  tid = tid;
  reason = some exited;
  info = code;
  trap_reason = none;
  syscall_info = none;
}
reason_of tid (is_killed signal core) = record {
  tid = tid;
  reason = some terminated;
  info = signal;
  trap_reason = none;
  syscall_info = none;
}
reason_of tid (stops signal event) = record {
  tid = tid;
  reason = some stopped;
  info = signal;
  trap_reason = if signal == 5 && event == 3 then some clone else none;
  syscall_info = none;
}

low_seven : (s : ℕ) → bit_and s 0x7f ≡ s % 128
low_seven s = bit_and_low 7 s

second_byte : (s : ℕ) → bit_and s 0xff00 / 256 ≡ s / 256 % 256
second_byte s =
    ap (λ (w : ℕ). w / 256)
      (bit_and_high 8 s 255 ∙ ap (λ (w : ℕ). w * 256) (bit_and_low 8 (s / 256)))
    ∙ omega arith

-- On the wait status of a thread that exited, was killed or stopped, the constructor of `stop_reason`
-- gives the state, with the exit code or the signal, and marks the stops of a clone event and no
-- others.
pub stop_reason-status_of :
    (tid : ℕ) (r : Report) → IsReport r → stop_reason tid (status_of r) ≡ reason_of tid r
unfolding stop_reason
stop_reason-status_of tid (exits code) h =
    let s = code * 256 in
    let low : s % 128 ≡ 0 = omega arith in ground (arith, low_seven s, second_byte s, low)
stop_reason-status_of tid (is_killed signal false) h =
    let low : signal % 128 ≡ signal = omega (arith, h.1) in
    let high : signal / 256 ≡ 0 = omega (arith, h.1) in
    ground (arith, low_seven signal, low, high, h.0, h.1)
stop_reason-status_of tid (is_killed signal true) h =
    let s = signal + 128 in
    let low : s % 128 ≡ signal = omega (arith, h.1) in
    let high : s / 256 ≡ 0 = omega (arith, h.1) in ground (arith, low_seven s, low, high, h.0, h.1)
stop_reason-status_of tid (stops signal event) h =
    let s = (event * 256 + signal) * 256 + 127 in
    let low : s % 128 ≡ 127 = omega arith in
    let byte : s % 256 ≡ 127 = omega arith in
    let high : s / 256 ≡ event * 256 + signal = omega arith in
    let info : (event * 256 + signal) % 256 ≡ signal = omega (arith, h.0) in
    ground (arith, low_seven s, low_byte s, second_byte s, low, byte, high, info, h.0, h.1)
