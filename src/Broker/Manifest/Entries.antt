-- ===== src/Broker/Manifest/Entries.antt =====
-- What an accepted manifest lets through: the pinned client, the pinned runtime and dependencies.
use alertmind.Prelude.{
  ℕ, ◌+◌, ◌*◌, ◌≤◌, ◌≡◌, refl, sym, ◌∙◌, inl, inr, true, false, List, [], ◌∷◌, ◌++◌, none, some,
  arith, subst, All, All-append, any, sum, map, Bool-cases, ◌||◌, leb→le,
}
use alertmind.Text.{Text, text, text_eq}
use alertmind.Text.Laws.{text_eq_iff, text_eq_refl}
use alertmind.Json.{Json, Fields, end, field, obj}
use alertmind.Json.Dict.{has, get, lookup}
use alertmind.Json.Parsed.{loads}
use alertmind.Dumps.{insert_sorted}
use alertmind.Platform.{Platform, Bytes}
use alertmind.Result.{ok, require, require_then, ok-injective, after_ok, after_require}
use alertmind.Broker.Core.{base, client, candidate_sha256, is_digest, FileCheck, mebibyte}
use alertmind.Broker.Manifest.{
  manifest_codes, as_dict, original_name, candidate_name, is_safe_name, entry, sized_check,
  check_entry, check_files, sorted_items, node_check, header_check, installed_checks,
}

-- A file that a manifest may name: the client with the candidate's digest, never the original's,
-- or a dependency at a safe name below the package's own folder, with a digest of the right shape.
pub data IsListed : FileCheck → Type 0 where
  the_client : (n : ℕ) → IsListed (sized_check client candidate_sha256 n)
  dependency :
      (name digest : Text) (n : ℕ)
      → is_safe_name name ≡ true
      → is_digest digest ≡ true
      → IsListed (sized_check (base ++ name) digest n)

entry-is_digest :
    (info : Json) (n : ℕ) (digest : Text) → entry info ≡ ok (n, digest) → is_digest digest ≡ true
unfolding entry require
entry-is_digest (obj fs) n digest h = ground arith
entry-is_digest _ n digest h = cc

check_entry-IsListed :
    (name : Text) (n : ℕ) (digest : Text) (cs : List FileCheck)
    → is_digest digest ≡ true
    → check_entry name n digest ≡ ok cs
    → All IsListed cs
unfolding check_entry
check_entry-IsListed name n digest cs d h = elim (Bool-cases (text_eq name original_name)) [
  | inl o ↦ let (_, e) = require_then _ _ _ (rw o at h) in subst (All IsListed) (ok-injective e) tt
  | inr o ↦ elim (Bool-cases (text_eq name candidate_name)) [
    | inl c ↦
        let (pinned, e) = require_then _ _ _ (rw (o, c) at h) in
        subst (All IsListed) (ok-injective e) (rw ((text_eq_iff _ _).0 pinned) (the_client n, tt))
    | inr c ↦
        let (safe, e) = require_then _ _ _ (rw (o, c) at h) in
        subst (All IsListed) (ok-injective e) (dependency name digest n safe d, tt)
  ]
]

-- Every listed check has the size bound of the manifest, and the sizes add up to the total.
abbrev pub size_of : FileCheck → ℕ
size_of c = elim c.size [ none ↦ 0 | some n ↦ n ]

pub sizes : List FileCheck → ℕ
sizes cs = sum (map size_of cs)

check_entry-sizes :
    (name : Text) (n : ℕ) (digest : Text) (cs : List FileCheck)
    → check_entry name n digest ≡ ok cs
    → sizes cs ≤ n
unfolding check_entry sizes require
check_entry-sizes name n digest cs h = ground arith

sizes-append : (cs bs : List FileCheck) → sizes (cs ++ bs) ≡ sizes cs + sizes bs
unfolding sizes
sizes-append [] bs = omega arith
sizes-append (c ∷ cs) bs = omega (arith, sizes-append cs bs)

abbrev pub HasClient : List FileCheck → Type 0
HasClient cs = any (λ c. text_eq c.path client) cs ≡ true

any-append_right : (cs bs : List FileCheck) → HasClient bs → HasClient (cs ++ bs)
any-append_right [] bs h = h
any-append_right (c ∷ cs) bs h = ground (arith, any-append_right cs bs h)

check_entry-HasClient :
    (n : ℕ) (digest : Text) (cs bs : List FileCheck)
    → check_entry candidate_name n digest ≡ ok cs
    → HasClient (cs ++ bs)
unfolding check_entry text_eq text
check_entry-HasClient n digest cs bs h = after_require (text_eq digest candidate_sha256) _ h λ _ e.
    subst (λ (xs : List FileCheck). HasClient (xs ++ bs)) (ok-injective e)
      (rw (text_eq_refl client))

-- The files of one pass of the loop.
check_files-IsListed :
    (fs : Fields) (cs : List FileCheck) (total : ℕ)
    → check_files fs ≡ ok (cs, total)
    → All IsListed cs × (sizes cs ≤ total) × (has candidate_name fs ≡ true → HasClient cs)
unfolding check_files lookup
check_files-IsListed end cs total h =
    subst
      (λ (t : List FileCheck × ℕ).
        All IsListed t.0 × (sizes t.0 ≤ t.1) × (false ≡ true → HasClient t.0))
      (ok-injective h) (tt, unfold sizes in omega arith, λ absent. cc)
check_files-IsListed (field name info fs) cs total h = after_ok (entry info) h λ (n, digest) e h1.
    after_ok (check_entry name n digest) h1 λ here e1 h2.
      after_ok (check_files fs) h2 λ (more, rest) e2 h3.
        let (listed, le, client_in) = check_files-IsListed fs more rest e2 in
        subst
          (λ (t : List FileCheck × ℕ).
            All IsListed t.0
            × (sizes t.0 ≤ t.1)
            × (has candidate_name (field name info fs) ≡ true → HasClient t.0))
          (ok-injective h3)
          (
            All-append IsListed here more
                (check_entry-IsListed name n digest here (entry-is_digest info n digest e) e1)
                listed,
            omega (arith, le, sizes-append here more, check_entry-sizes name n digest here e1),
            λ there. elim (Bool-cases (text_eq name candidate_name)) [
              | inl c ↦
                  check_entry-HasClient n digest here more
                    (subst (λ k. check_entry k n digest ≡ ok here) ((text_eq_iff _ _).0 c) e1)
              | inr c ↦ any-append_right here more (client_in (rw c at there))
            ],
          )

has-insert_sorted :
    (j k : Text) (v : Json) (fs : Fields) → has j (insert_sorted k v fs) ≡ (text_eq k j || has j fs)
unfolding insert_sorted lookup
has-insert_sorted j k v end = ground arith
has-insert_sorted j k v (field i w fs) = ground (arith, has-insert_sorted j k v fs)

has-sorted_items : (j : Text) (fs : Fields) → has j (sorted_items fs) ≡ has j fs
unfolding sorted_items lookup
has-sorted_items j end = refl
has-sorted_items j (field k v fs) =
    ground (arith, has-sorted_items j fs, has-insert_sorted j k v (sorted_items fs))

module _ ⦃p : Platform⦄ where
  -- An accepted manifest yields the pinned Node and header behind files that are each the client
  -- with the candidate's digest or a dependency at a safe name below the package; the client is
  -- among them, and their sizes add up to at most 32 MiB.
  pub installed_checks-IsListed :
      (raw : Bytes) (checks : List FileCheck)
      → installed_checks raw ≡ ok checks
      → (files : List FileCheck) × (checks ≡ files ++ node_check ∷ header_check ∷ [])
        × All IsListed files
        × HasClient files
        × (sizes files ≤ 32 * mebibyte)
  unfolding installed_checks
  installed_checks-IsListed raw checks h = after_require _ _ h λ _ h1.
      after_ok (loads manifest_codes (p.parse raw)) h1 λ value _ h2.
        after_ok (as_dict value "MANIFEST_SHAPE") h2 λ manifest _ h3. after_require _ _ h3 λ _ h4.
          after_ok (as_dict (get (text "files") manifest) "MANIFEST_FILES") h4 λ files _ h5.
            after_require _ _ h5 λ _ h6. after_require _ _ h6 λ _ h7.
              after_ok (check_files (sorted_items files)) h7 λ (cs, total) e h8.
                after_require _ _ h8 λ there h9.
                  let (listed, le, client_in) =
                    check_files-IsListed (sorted_items files) cs total e in
                  (
                    cs,
                    sym (ok-injective h9),
                    listed,
                    client_in (has-sorted_items candidate_name files ∙ ground arith),
                    omega (arith, le, leb→le total (32 * mebibyte) (ground arith)),
                  )
