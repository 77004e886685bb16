-- ===== src/Ring/Write.antt =====
-- `log_buffer_add_record` of handler/log.c on a ring that holds a history.
use ikgt_usage.Base.{ℕ, ◌+◌, ◌^◌, ◌<◌, ◌≡◌, ◌≢◌, arith, inc64, subst, ◌∙◌, sym, ap}
use native.Mathlib.Decide.{ℕ_discrete}
use ikgt_usage.PolicyCommon.{LogEntry, LogBuffer, log_seq_num_to_index, get_last_seq_num}
use ikgt_usage.Handler.Log.{log_buffer_add_record}
use ikgt_usage.Ring.{entry, slot, Holds}

module _ (buffer : LogBuffer) (start rip reason qualification gva : ℕ) where
  abbrev added : LogBuffer
  added = log_buffer_add_record buffer start rip reason qualification gva

  head-add : get_last_seq_num added start ≡ inc64 (get_last_seq_num buffer start)
  unfolding log_buffer_add_record log_seq_num_to_index get_last_seq_num
  head-add = ground arith

  slot-add :
      (n : ℕ)
      → get_last_seq_num buffer start ≡ n
      → added (start + slot n) ≡ entry n rip reason qualification gva
  unfolding log_buffer_add_record log_seq_num_to_index get_last_seq_num
  slot-add n h = ground arith

  other-add :
      (i : ℕ)
      → i ≢ 0
      → i ≢ slot (get_last_seq_num buffer start)
      → added (start + i) ≡ buffer (start + i)
  unfolding log_buffer_add_record log_seq_num_to_index get_last_seq_num
  other-add i h ne = ground arith

-- If a buffer holds the first `n` records of a history, the record written is number `n` of the
-- history and `n + 1` fits 64 bits, then after `log_buffer_add_record` the buffer holds the first
-- `n + 1`: the new record is in its slot, no record among the last 203 is lost, and the head has moved
-- on by one.
pub add-Holds :
    (buffer : LogBuffer) (start rip reason qualification gva : ℕ) (history : ℕ → LogEntry) (n : ℕ)
    → n + 1 < 2 ^ 64
    → history n ≡ entry n rip reason qualification gva
    → Holds buffer start history n
    → Holds (log_buffer_add_record buffer start rip reason qualification gva) start history (n + 1)
add-Holds buffer start rip reason qualification gva history n small e h = record {
  head = omega (arith, head-add buffer start rip reason qualification gva, h.head);
  slots = λ s lt le. elim (ℕ_discrete s n) [
    | yes p ↦
        subst (λ k. next (start + slot k) ≡ history k) (sym p)
          (slot-add buffer start rip reason qualification gva n h.head ∙ sym e)
    | no p ↦
        other-add buffer start rip reason qualification gva (slot s) (omega arith)
          (omega (arith, h.head))
        ∙ h.slots s (omega arith) (omega arith)
  ];
  marked = λ s lt. elim (ℕ_discrete s n) [
    | yes p ↦ ground (arith, ap history p)
    | no p ↦ h.marked s (omega arith)
  ];
  unused = λ i lt le.
      ap (λ (x : LogEntry). x.valid)
        (other-add buffer start rip reason qualification gva i (omega arith)
          (omega (arith, h.head)))
      ∙ h.unused i (omega arith) le;
}
  where
    next : LogBuffer
    next = log_buffer_add_record buffer start rip reason qualification gva
