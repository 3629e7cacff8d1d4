-- ===== src/Session/Transfer.antt =====
-- `OutWritePcmData` and `InReadPcmData` of BluetoothAudioSession.cpp: the loops that move PCM bytes through
-- the message queue. The lock is taken anew in each round, and the stack may end the session between
-- two, so what a round meets is a `Poll`; the polls are a function of the round's number.
use android_device_peter_gsi.Base.{
  ℕ, zero, suc, ◌+◌, ◌-◌, ◌≤◌, ◌<◌, min, ◌≡◌, refl, inl, inr, arith, Bool, true, List, [], ◌∷◌, ltb,
  leb, if◌then◌else◌, Bool-cases,
}

-- Whether the session is ready, what the queue has room or data for, and whether the queue then does the
-- transfer. On an offload session, which is ready with no queue, the source would read a null pointer: a
-- poll is that of a session with a queue.
pub record Poll : Type 0 where
  pub is_ready : Bool
  pub available : ℕ
  pub succeeds : Bool

-- The two timeouts and the two polling intervals of the header, in milliseconds.
abbrev pub fmq_timeout_ms : ℕ
fmq_timeout_ms = 1000

abbrev pub poll_ms : ℕ
poll_ms = 1

-- Why a call returns.
pub data Stop : Type 0 where
  complete not_ready failed timed_out : Stop

-- What a call leaves: the bytes moved, as (offset, length) of each transfer, the total, the time slept, and
-- why it returned; `none` of a `running` loop says that the fuel is used up.
pub record Transfer : Type 0 where
  pub chunks : List (ℕ × ℕ)
  pub total : ℕ
  pub slept_ms : ℕ
  pub stop : Stop

pub data Outcome : Type 0 where
  returned : Transfer → Outcome
  running : Outcome

abbrev finish : ℕ → ℕ → Stop → Outcome
finish total timeout_ms stop =
    Outcome.returned
      (record { chunks = []; total = total; slept_ms = fmq_timeout_ms - timeout_ms; stop = stop })

abbrev pub with_chunk : ℕ × ℕ → Outcome → Outcome
with_chunk chunk (Outcome.returned t) = Outcome.returned (record t { chunks = chunk ∷ t.chunks })
with_chunk chunk Outcome.running = Outcome.running

-- The loop, from its round `round` on, with `total` bytes moved and `timeout_ms` left.
unfoldable pub transfer_loop : (ℕ → Poll) → ℕ → ℕ → ℕ → ℕ → ℕ → Outcome
transfer_loop polls bytes zero round total timeout_ms = Outcome.running
transfer_loop polls bytes (suc fuel) round total timeout_ms =
    let poll = polls round in
    let chunk = min poll.available (bytes - total) in
    let moved = transfer_loop polls bytes fuel (round + 1) (total + chunk) timeout_ms in
    let waited = transfer_loop polls bytes fuel (round + 1) total (timeout_ms - poll_ms) in
    if poll.is_ready
    then (if ltb 0 poll.available
        then (if poll.succeeds
            then with_chunk (total, chunk)
                (if ltb (total + chunk) bytes
                  then moved
                  else finish (total + chunk) timeout_ms Stop.complete)
            else finish total timeout_ms Stop.failed)
        else (if leb poll_ms timeout_ms
            then (if ltb total bytes then waited else finish total timeout_ms Stop.complete)
            else finish total timeout_ms Stop.timed_out))
    else finish total timeout_ms Stop.not_ready

-- The fuel that is always enough: each round moves a byte or waits.
abbrev pub transfer_fuel : ℕ → ℕ
transfer_fuel bytes = bytes + fmq_timeout_ms + 1

-- `OutWritePcmData` and `InReadPcmData`, on a buffer that is not null.
unfoldable pub transfer_pcm_data : (ℕ → Poll) → ℕ → Outcome
unfolding transfer_loop
transfer_pcm_data polls bytes =
    if ltb 0 bytes
    then transfer_loop polls bytes (transfer_fuel bytes) 0 0 fmq_timeout_ms
    else finish 0 fmq_timeout_ms Stop.complete

-- Chunks follow one another from an offset up to another, each of at least one byte.
abbrev pub AreContiguous : ℕ → ℕ → List (ℕ × ℕ) → Type 0
AreContiguous from to [] = from ≡ to
AreContiguous from to ((offset, n) ∷ rest) =
    (offset ≡ from) × (0 < n) × AreContiguous (from + n) to rest

-- What a returned transfer promises.
abbrev pub IsSound : ℕ → ℕ → Outcome → Type 0
IsSound from bytes Outcome.running = ⊥
IsSound from bytes (Outcome.returned t) =
    AreContiguous from t.total t.chunks
    × (t.total ≤ bytes)
    × (t.slept_ms ≤ fmq_timeout_ms)
    × (t.stop ≡ Stop.complete → t.total ≡ bytes)
    × (t.stop ≡ Stop.timed_out → t.slept_ms ≡ fmq_timeout_ms)

with_chunk-IsSound :
    (from n bytes : ℕ) (o : Outcome)
    → 0 < n
    → IsSound (from + n) bytes o
    → IsSound from bytes (with_chunk (from, n) o)
with_chunk-IsSound from n bytes (Outcome.returned t) h (c, b, m, d, w) = ((refl, h, c), b, m, d, w)
with_chunk-IsSound from n bytes Outcome.running h s = s

finish-IsSound :
    (total bytes timeout_ms : ℕ) (stop : Stop)
    → total ≤ bytes
    → (stop ≡ Stop.complete → total ≡ bytes)
    → (stop ≡ Stop.timed_out → timeout_ms ≡ 0)
    → IsSound total bytes (finish total timeout_ms stop)
finish-IsSound total bytes timeout_ms stop le c t =
    (refl, le, omega arith, c, λ e. let z = t e in omega (arith, z))

transfer_loop-IsSound :
    (polls : ℕ → Poll) (bytes fuel round total timeout_ms : ℕ)
    → total < bytes
    → timeout_ms ≤ fmq_timeout_ms
    → bytes - total + timeout_ms < fuel
    → IsSound total bytes (transfer_loop polls bytes fuel round total timeout_ms)
unfolding transfer_loop
transfer_loop-IsSound polls bytes zero round total timeout_ms lt le enough = absurd (omega arith)
transfer_loop-IsSound polls bytes (suc fuel) round total timeout_ms lt le enough =
    let poll = polls round in
    let chunk = min poll.available (bytes - total) in
    let moved = transfer_loop-IsSound polls bytes fuel (round + 1) (total + chunk) timeout_ms in
    let waited =
      transfer_loop-IsSound polls bytes fuel (round + 1) total (timeout_ms - poll_ms) lt in
    elim (Bool-cases poll.is_ready) [
      | inr ended ↦
          rw ended (finish-IsSound total bytes timeout_ms Stop.not_ready (omega arith) (cc) (cc))
      | inl ready ↦ elim (Bool-cases (ltb 0 poll.available)) [
        | inr empty ↦ elim (Bool-cases (leb poll_ms timeout_ms)) [
          | inr late ↦ rw ready (
              rw empty (
                rw late (
                  finish-IsSound total bytes timeout_ms Stop.timed_out (omega arith) (cc)
                    (λ e. ground arith))))
          | inl early ↦
              let again : ltb total bytes ≡ true = ground arith in
              rw ready (rw empty (rw early (rw again (waited (omega arith) (ground arith)))))
        ]
        | inl room ↦ elim (Bool-cases poll.succeeds) [
          | inr broken ↦ rw ready (
              rw room (
                rw broken
                  (finish-IsSound total bytes timeout_ms Stop.failed (omega arith) (cc) (cc))))
          | inl done ↦
              let some_bytes : 0 < chunk = ground arith in
              elim (Bool-cases (ltb (total + chunk) bytes)) [
                | inl more ↦ rw ready (
                    rw room (
                      rw done (
                        rw more (
                          with_chunk-IsSound total chunk bytes _ some_bytes
                            (moved (ground arith) le (ground arith))))))
                | inr last ↦ rw ready (
                    rw room (
                      rw done (
                        rw last (
                          with_chunk-IsSound total chunk bytes
                            (finish (total + chunk) timeout_ms Stop.complete) some_bytes
                            (finish-IsSound (total + chunk) bytes timeout_ms Stop.complete
                              (omega arith) (λ e. ground arith) cc)))))
              ]
        ]
      ]
    ]

-- A call of `transfer_pcm_data` always returns, whatever the queue and the stack do in between: it moves at
-- most the bytes asked for, in chunks of at least one byte that follow one another from offset 0 up to
-- the total it returns; it sleeps at most the timeout; it says that it is complete only with all bytes
-- moved, and that it timed out only after the whole timeout.
pub transfer_pcm_data-IsSound :
    (polls : ℕ → Poll) (bytes : ℕ) → IsSound 0 bytes (transfer_pcm_data polls bytes)
unfolding transfer_pcm_data
transfer_pcm_data-IsSound polls bytes = elim (Bool-cases (ltb 0 bytes)) [
  | inl asked ↦ rw asked (
      transfer_loop-IsSound polls bytes (transfer_fuel bytes) 0 0 fmq_timeout_ms (ground arith)
        (omega arith) (omega arith))
  | inr nothing ↦
      rw nothing
        (finish-IsSound 0 bytes fmq_timeout_ms Stop.complete (omega arith) (λ e. ground arith) (cc))
]
