-- ===== src/Ring/Read.antt =====
-- `read_logs` of driver/log.c on a ring that holds a history.
use ikgt_usage.Base.{
  ℕ, zero, suc, ◌+◌, ◌-◌, ◌^◌, ◌≤◌, ◌<◌, ◌≡◌, ◌≢◌, refl, List, [], ◌∷◌, arith, leb, ◌==◌, ==_false,
  if◌then◌else◌, min, u32, ◌∙◌, ap,
}
use native.Mathlib.Decide.{dec_lt}
use ikgt_usage.PolicyCommon.{LogEntry, LogBuffer, logs_per_cpu, log_seq_num_to_index}
use ikgt_usage.Driver.Log.{read_loop, read_logs, clamp_count, first_index}
use ikgt_usage.Ring.{slot, Holds, recent}

clamp_count_lem : (count : ℕ) → count < 2 ^ 32 → clamp_count count ≡ min count logs_per_cpu
unfolding clamp_count
clamp_count_lem count h = ground arith

u32-slot : (n : ℕ) → u32 (slot n) ≡ slot n
u32-slot n = omega arith

-- The slot of the record `k` back from the head, which may lie before the first one.
first_index_lem :
    (n k : ℕ) → 0 < k → k ≤ logs_per_cpu → first_index (slot n) k ≡ slot (n + logs_per_cpu - k)
unfolding first_index
first_index_lem n k pos le = ground arith

module _ (buffer : LogBuffer) (start : ℕ) (history : ℕ → LogEntry) (n : ℕ) where
  -- The slot `k + 1` back from the head holds that record, or no record if there are fewer.
  back_valid :
      Holds buffer start history n
      → (k : ℕ) → k < logs_per_cpu
      → k < n
      → buffer (start + slot (n + logs_per_cpu - suc k)) ≡ history (n - suc k)
  back_valid h k le lt =
      ap (λ i. buffer (start + i)) (omega arith) ∙ h.slots (n - suc k) (omega arith) (omega arith)

  back_unused :
      Holds buffer start history n
      → (k : ℕ) → k < logs_per_cpu
      → n ≤ k
      → (buffer (start + slot (n + logs_per_cpu - suc k))).valid ≡ 0
  back_unused h k le lt = h.unused (slot (n + logs_per_cpu - suc k)) (omega arith) (omega arith)

  -- The index after it, and the test that ends the loop.
  next_index :
      (k : ℕ)
      → k < logs_per_cpu
      → (if leb logs_per_cpu (slot (n + logs_per_cpu - suc k))
          then 1
          else slot (n + logs_per_cpu - suc k) + 1)
        ≡ slot (n + logs_per_cpu - k)
  next_index k le = ground arith

  unless_last :
      (k : ℕ) (entries : List LogEntry)
      → k < logs_per_cpu
      → entries ≡ recent history n k
      → (if slot (n + logs_per_cpu - k) == slot n then [] else entries) ≡ recent history n k
  unfolding recent
  unless_last zero entries le e = ground arith
  unless_last (suc k) entries le e =
      let ne : slot (n + logs_per_cpu - suc k) ≢ slot n = omega arith in rw (==_false _ _ ne) e

  round :
      Holds buffer start history n
      → (k : ℕ) → k < logs_per_cpu
      → (if (buffer (start + slot (n + logs_per_cpu - suc k))).valid == 0
          then recent history n k
          else buffer (start + slot (n + logs_per_cpu - suc k)) ∷ recent history n k)
        ≡ recent history n (suc k)
  round h k le = elim (dec_lt k n) [
    | yes p ↦
        rw (back_valid h k le p)
          (unfold recent in ground (arith, h.marked (n - suc k) (omega arith)))
    | no p ↦ unfold recent in ground (arith, back_unused h k le (omega arith))
  ]

  -- One round: the record is copied if there is one, and the loop goes on unless it is the last.
  read_loop-recent :
      Holds buffer start history n
      → (k : ℕ) → k ≤ logs_per_cpu
      → read_loop buffer start (slot n) (slot (n + logs_per_cpu - k)) k ≡ recent history n k
  unfolding read_loop
  read_loop-recent h zero le = unfold recent in refl
  read_loop-recent h (suc k) le =
      rw (next_index k le, unless_last k _ le (read_loop-recent h k (omega arith))) (round h k le)

-- From a buffer that holds a history of `n` records, `read_logs` at the head returns the last `count`
-- of them, oldest first, or the last 203 if `count` is larger (a negative int included), or all of
-- them if there are fewer. Slots that no record has reached are passed over.
pub read_logs-Holds :
    (buffer : LogBuffer) (start : ℕ) (history : ℕ → LogEntry) (n count : ℕ)
    → count < 2 ^ 32
    → Holds buffer start history n
    → read_logs buffer start n count ≡ recent history n (min count logs_per_cpu)
unfolding read_logs log_seq_num_to_index
read_logs-Holds buffer start history n count small h =
    rw (clamp_count_lem count small) (elim (dec_lt 0 count) [
      | yes p ↦
          rw (u32-slot n, first_index_lem n (min count logs_per_cpu) (omega arith) (omega arith))
            (read_loop-recent buffer start history n h (min count logs_per_cpu) (omega arith))
      | no p ↦
          let none_left : min count logs_per_cpu ≡ 0 = omega arith in
          rw none_left (unfold read_loop recent in refl)
    ])
