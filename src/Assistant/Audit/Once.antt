-- ===== src/Assistant/Audit/Once.antt =====
-- No record is written twice by `append_jsonl_once` of audit.py, and none is lost.
use mathlib.Core.List.{append_assoc, append-nil}
use alertmind.Prelude.{
  ℕ, suc, ◌+◌, ◌≤◌, ◌≡◌, refl, ap, sym, ◌∙◌, subst, inl, inr, true, false, List, [], ◌∷◌, ◌++◌,
  Bool-cases, arith, if◌then◌else◌, All,
}
use alertmind.Text.{Text}
use alertmind.Platform.{Platform}
use alertmind.Json.{Fields}
use alertmind.Assistant.Audit.{
  File, lines_of, is_record_of, has_record, line_of, append_jsonl_once, append_all,
}

module _ ⦃p : Platform⦄ where
  -- How many lines are records of `id`.
  unfoldable pub count_of : Text → List Text → ℕ
  count_of id [] = 0
  count_of id (line ∷ lines) =
      let rest = count_of id lines in if is_record_of id line then suc rest else rest

  count_of-append :
      (id : Text) (xs : List Text) (line : Text)
      → count_of id (xs ++ line ∷ []) ≡ count_of id xs + (if is_record_of id line then 1 else 0)
  unfolding count_of
  count_of-append id [] line = ground arith
  count_of-append id (x ∷ xs) line = ground (arith, count_of-append id xs line)

  count_of-has_record : (id : Text) (xs : List Text) → has_record id xs ≡ false → count_of id xs ≡ 0
  unfolding count_of has_record
  count_of-has_record id [] h = refl
  count_of-has_record id (x ∷ xs) h = ground (arith, count_of-has_record id xs)

  -- The printed record is read back as the record of its own id and of no other: what the decoder
  -- does with the output of the encoder, for records that hold their id.
  unfoldable pub IsReadBack : Fields × Text → Type 0
  IsReadBack (record', id) =
      (is_record_of id (line_of record') ≡ true)
      × ((other : Text) → is_record_of other (line_of record') ≡ true → other ≡ id)

  -- At most one line for each id.
  unfoldable pub IsOnce : List Text → Type 0
  IsOnce lines = (id : Text) → count_of id lines ≤ 1

  append-IsOnce :
      (file : File) (record' : Fields) (id : Text)
      → IsReadBack (record', id)
      → IsOnce (lines_of file)
      → IsOnce (lines_of (append_jsonl_once file record' id).0)
  unfolding append_jsonl_once IsOnce IsReadBack
  append-IsOnce file record' id (own, only) once =
      elim (Bool-cases (has_record id (lines_of file))) [
        | inl there ↦ rw there once
        | inr absent ↦ rw absent (λ other.
            let total = count_of-append other (lines_of file) (line_of record') in
            elim (Bool-cases (is_record_of other (line_of record'))) [
              | inl same ↦
                  let none' = count_of-has_record other (lines_of file) (
                    subst (λ x. has_record x (lines_of file) ≡ false) (sym (only other same))
                      absent) in
                  ground arith
              | inr differs ↦ let before = once other in ground arith
            ])
      ]

  -- After a call the file begins with what it held, and holds the record.
  unfoldable pub Extends : List Text → List Text → Type 0
  Extends before after = (more : List Text) × (after ≡ before ++ more)

  append-Extends :
      (file : File) (record' : Fields) (id : Text)
      → Extends (lines_of file) (lines_of (append_jsonl_once file record' id).0)
  unfolding append_jsonl_once Extends
  append-Extends file record' id = elim (Bool-cases (has_record id (lines_of file))) [
    | inl there ↦ rw there ([], sym (append-nil (lines_of file)))
    | inr absent ↦ rw absent (line_of record' ∷ [], refl)
  ]

  has_record-append :
      (id : Text) (xs ys : List Text) → has_record id xs ≡ true → has_record id (xs ++ ys) ≡ true
  unfolding has_record
  has_record-append id [] ys h = absurd (cc)
  has_record-append id (x ∷ xs) ys h = ground (arith, has_record-append id xs ys)

  has_record-last :
      (id : Text) (xs : List Text) (line : Text)
      → is_record_of id line ≡ true
      → has_record id (xs ++ line ∷ []) ≡ true
  unfolding has_record
  has_record-last id [] line h = ground arith
  has_record-last id (x ∷ xs) line h = ground (arith, has_record-last id xs line h)

  append-has_record :
      (file : File) (record' : Fields) (id : Text)
      → IsReadBack (record', id)
      → has_record id (lines_of (append_jsonl_once file record' id).0) ≡ true
  unfolding append_jsonl_once IsReadBack
  append-has_record file record' id (own, only) =
      elim (Bool-cases (has_record id (lines_of file))) [
        | inl there ↦ rw there there
        | inr absent ↦ rw absent (has_record-last id (lines_of file) (line_of record') own)
      ]

  -- Whatever the order of the calls and however often one is repeated, the log keeps what it held,
  -- has a record of each call's id, and has no id twice, if every printed record is read back as the
  -- record of its own id.
  pub append_all-IsOnce :
      (file : File) (calls : List (Fields × Text))
      → All IsReadBack calls
      → IsOnce (lines_of file)
      → IsOnce (lines_of (append_all file calls))
        × Extends (lines_of file) (lines_of (append_all file calls))
        × All (λ c. has_record c.1 (lines_of (append_all file calls)) ≡ true) calls
  unfolding append_all Extends
  append_all-IsOnce file [] h once = (once, ([], sym (append-nil (lines_of file))), tt)
  append_all-IsOnce file ((record', id) ∷ calls) (h, hs) once =
      let file' = (append_jsonl_once file record' id).0 in
      let (once', (more, grown), there) =
        append_all-IsOnce file' calls hs (append-IsOnce file record' id h once) in
      let (first, began) : Extends (lines_of file) (lines_of file') =
        append-Extends file record' id in
      (
        once',
        (
          first ++ more,
          grown ∙ ap (λ x. x ++ more) began ∙ append_assoc (lines_of file) first more,
        ),
        (
          ap (has_record id) grown
              ∙ has_record-append id (lines_of file') more (append-has_record file record' id h),
          there,
        ),
      )
