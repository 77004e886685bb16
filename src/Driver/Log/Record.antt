-- ===== src/Driver/Log/Record.antt =====
-- driver/log.c: one record put on the page by `dump_log`.
use ikgt_usage.Base.{
  ℕ, zero, suc, ◌+◌, ◌-◌, ◌≤◌, ◌<◌, ◌≡◌, refl, ap, sym, true, false, List, [], ◌∷◌, ◌++◌, ◌∙◌, some,
  arith, ◌⊎◌, inl, inr, min, length, length-append, append_assoc, append-nil, u32,
}
use native.Mathlib.Decide.{dec_lt}
use ikgt_usage.Base.Text.{strncpy, cut, codes, print_hex}
use ikgt_usage.PolicyCommon.{LogEntry}
use ikgt_usage.Driver.Log.{
  PageText, put, log_add_msg_to_configfs, max_configfs_page_size, Dump, dump_entry, set_seq_num,
  format_record, max_log_record_len,
}
use ikgt_usage.Driver.Log.Page.{length-print_digits, length-print_decimal}

length-print_hex : (n : ℕ) → length (print_hex n) ≤ 16
unfolding print_hex
length-print_hex n = length-print_digits 16 16 n []

length-field :
    (s t : List ℕ) (n k : ℕ)
    → length s ≤ n
    → length t ≤ k
    → length (s ++ (codes "," ++ t)) ≤ n + suc k
length-field s t n k p q = omega (arith, length-append s (codes "," ++ t), p, q)

-- The text of a record is shorter than the buffer that `snprintf` writes it to.
pub length-format_record : (cpu_index : ℕ) (e : LogEntry) → length (format_record cpu_index e) ≤ 114
unfolding format_record
length-format_record cpu_index e = length-field _ _ 20 93 (length-print_decimal cpu_index) (
    length-field _ _ 20 72 (length-print_decimal e.seq_num) (
      length-field _ _ 20 51 (length-print_decimal e.reason) (
        length-field _ _ 16 34 (length-print_hex e.qualification) (
          length-field _ _ 16 17 (length-print_hex e.rip) (
            omega (arith, length-append (print_hex e.gva) (codes "\n"), length-print_hex e.gva))))))

pub cut_all : (n : ℕ) (s : List ℕ) → length s ≤ n → cut n s ≡ s
unfolding cut
cut_all zero [] h = refl
cut_all zero (c ∷ s) h = absurd (omega arith)
cut_all (suc n) [] h = refl
cut_all (suc n) (c ∷ s) h = ap (λ r. c ∷ r) (cut_all n s (omega arith))

strncpy-cut : (n : ℕ) (s : List ℕ) → n ≤ length s → strncpy n s ≡ cut n s
unfolding strncpy cut
strncpy-cut zero s h = refl
strncpy-cut (suc n) [] h = absurd (omega arith)
strncpy-cut (suc n) (c ∷ s) h = ap (λ r. c ∷ r) (strncpy-cut n s (omega arith))

pub strncpy_all : (s : List ℕ) → strncpy (length s) s ≡ s
strncpy_all s = strncpy-cut (length s) s (omega arith) ∙ cut_all (length s) s (omega arith)

-- The page with the whole text of a record put on it.
abbrev pub with_text : PageText → List ℕ → PageText
with_text p t = record { bytes = p.bytes ++ t; offset = p.offset + length t }

-- A page that a text filled: as much of the text as there was room for, and the ellipsis if that is
-- not all of it.
pub record FilledBy (p : PageText) (t : List ℕ) (p' : PageText) : Type 0 where
  pub tail : List ℕ
  pub tail_lem : (tail ≡ []) ⊎ (tail ≡ codes "...\n")
  pub text : p'.bytes ≡ p.bytes ++ (cut (max_configfs_page_size - 1 - p.offset) t ++ tail)

-- What putting a record on an open page does.
pub data EntryStep (cpu_index : ℕ) (e : LogEntry) (d : Dump) : Type 0 where
  whole :
      d.page.offset + length (format_record cpu_index e) < max_configfs_page_size - 1
      → dump_entry cpu_index e d
        ≡ some (record d {
          page = with_text d.page (format_record cpu_index e);
          full = false;
          num_of_logs_dumped = u32 (d.num_of_logs_dumped + 1);
        })
      → EntryStep cpu_index e d
  last :
      (p : PageText)
      → max_configfs_page_size - 1 ≤ d.page.offset + length (format_record cpu_index e)
      → FilledBy d.page (format_record cpu_index e) p
      → dump_entry cpu_index e d
        ≡ some (record d {
          page = p;
          full = true;
          seq_nums = set_seq_num d.seq_nums cpu_index e.seq_num;
        })
      → EntryStep cpu_index e d

module _ (p : PageText) (t : List ℕ) where
  abbrev room : ℕ
  room = max_configfs_page_size - 1 - p.offset

  add_whole :
      p.offset + length t < max_configfs_page_size - 1
      → log_add_msg_to_configfs p t (length t) ≡ some (with_text p t, false)
  unfolding log_add_msg_to_configfs
  add_whole lt =
      let all : min (length t) (max_configfs_page_size - 1 - p.offset) ≡ length t = omega arith in
      let text : strncpy (length t) t ≡ t =
        strncpy-cut (length t) t (omega arith) ∙ cut_all (length t) t (omega arith) in
      rw (all, text) (ground arith)

  add_exact :
      p.offset < max_configfs_page_size - 1
      → p.offset + length t ≡ max_configfs_page_size - 1
      → (p' : PageText) × (log_add_msg_to_configfs p t (length t) ≡ some (p', true))
        × FilledBy p t p'
  unfolding log_add_msg_to_configfs
  add_exact open_ e =
      let all : min (length t) (max_configfs_page_size - 1 - p.offset) ≡ length t = omega arith in
      let text : strncpy (length t) t ≡ t =
        strncpy-cut (length t) t (omega arith) ∙ cut_all (length t) t (omega arith) in
      let end_ : cut room t ≡ t = cut_all room t (omega arith) in
      (
        with_text p t,
        rw (all, text) (ground arith),
        record {
          tail = [];
          tail_lem = inl refl;
          text = ap (λ s. p.bytes ++ s) (sym (append-nil _) ∙ ap (λ s. s ++ []) (sym end_));
        },
      )

  add_over :
      p.offset < max_configfs_page_size - 1
      → max_configfs_page_size - 1 < p.offset + length t
      → (p' : PageText) × (log_add_msg_to_configfs p t (length t) ≡ some (p', true))
        × FilledBy p t p'
  unfolding log_add_msg_to_configfs
  add_over open_ lt =
      let part : min (length t) (max_configfs_page_size - 1 - p.offset) ≡ room = omega arith in
      let text : strncpy room t ≡ cut room t = strncpy-cut room t (omega arith) in
      (
        put (put p t room) (codes "...\n") 4,
        rw (part) (ground arith),
        record {
          tail = codes "...\n";
          tail_lem = inr refl;
          text =
              ap (λ s. (p.bytes ++ s) ++ codes "...\n") text
              ∙ append_assoc p.bytes (cut room t) (codes "...\n");
        },
      )

dump_entry-last :
    (cpu_index : ℕ) (e : LogEntry) (d : Dump)
    → ((p : PageText) × (log_add_msg_to_configfs d.page
            (format_record cpu_index e)
            (length (format_record cpu_index e))
          ≡ some (p, true))
        × FilledBy d.page (format_record cpu_index e) p)
    → max_configfs_page_size - 1 ≤ d.page.offset + length (format_record cpu_index e)
    → EntryStep cpu_index e d
unfolding dump_entry
dump_entry-last cpu_index e d (p, h, f) le = last p le f (
    rw
      (
        cut_all (max_log_record_len - 1) (format_record cpu_index e)
            (omega (arith, length-format_record cpu_index e)),
        h,
      )
      refl)

pub dump_entry-EntryStep :
    (cpu_index : ℕ) (e : LogEntry) (d : Dump)
    → d.page.offset < max_configfs_page_size - 1
    → EntryStep cpu_index e d
unfolding dump_entry
dump_entry-EntryStep cpu_index e d open_ =
    let t : List ℕ = format_record cpu_index e in
    elim (dec_lt (d.page.offset + length t) (max_configfs_page_size - 1)) [
      | yes lt ↦ whole lt (
          rw
            (
              cut_all (max_log_record_len - 1) t (omega (arith, length-format_record cpu_index e)),
              add_whole d.page t lt,
            )
            refl)
      | no nlt ↦ elim (dec_lt (max_configfs_page_size - 1) (d.page.offset + length t)) [
        | yes lt ↦ dump_entry-last cpu_index e d (add_over d.page t open_ lt) (omega arith)
        | no nlt' ↦
            dump_entry-last cpu_index e d (add_exact d.page t open_ (omega arith)) (omega arith)
      ]
    ]
