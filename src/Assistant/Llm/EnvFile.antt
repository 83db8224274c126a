-- ===== src/Assistant/Llm/EnvFile.antt =====
-- llm.py: `load_env_file`, which fills the environment from a `.env` file.
use alertmind.Prelude.{
  false, not, ◌&&◌, ◌||◌, ◌≡◌, refl, sym, ap, ◌∙◌, List, [], ◌∷◌, Option, none, some, is_some,
  is_empty, if◌then◌else◌, Bool-cases, inl, inr, arith,
}
use alertmind.Text.{Text, text, text_eq, starts_with, strip}
use alertmind.Text.Laws.{text_eq_iff}
use alertmind.Text.Trim.{strip_char, partition}
use alertmind.Json.{Json, str, Fields, end}
use alertmind.Json.Dict.{lookup, insert, lookup-insert}

-- `os.environ`, and `os.environ[k] = v`
abbrev pub Environ : Type 0
Environ = Text → Option Text

abbrev pub set_env : Text → Text → Environ → Environ
set_env k v env = λ j. if text_eq k j then some v else env j

-- `v.strip().strip('"').strip("'")`
unfoldable pub unquoted : Text → Text
unfolding strip strip_char
unquoted v = strip_char b'\'' (strip_char b'"' (strip v))

-- `if k and k not in os.environ: ...`
unfoldable pub set_default : Text → Text → Environ × Fields → Environ × Fields
set_default k v (env, loaded) =
    if not (is_empty k) && not (is_some (env k))
    then (set_env k v env, insert k (str v) loaded)
    else (env, loaded)

abbrev assign : Option (Text × Text) → Environ × Fields → Environ × Fields
assign none state = state
assign (some (k, v)) state = set_default (strip k) (unquoted v) state

-- One line of the file.
unfoldable pub load_line : Text → Environ × Fields → Environ × Fields
load_line raw state =
    let line = strip raw in
    if is_empty line || starts_with (text "#") line
    then state
    else assign (partition b'=' line) state

unfoldable pub load_lines : List Text → Environ × Fields → Environ × Fields
unfolding load_line
load_lines [] state = state
load_lines (line ∷ lines) state = load_lines lines (load_line line state)

-- `load_env_file`, from the lines of the file if it is there: the environment, and what was loaded.
unfoldable pub load_env_file : Option (List Text) → Environ → Environ × Fields
unfolding load_lines
load_env_file none env = (env, end)
load_env_file (some lines) env = load_lines lines (env, end)

-- What the file gave for a name.
abbrev pub loaded_value : Option Json → Option Text
loaded_value (some (str v)) = some v
loaded_value _ = none

-- The shell's value, if there is one, or else the file's.
abbrev pub layered : Option Text → Option Text → Option Text
layered (some v) w = some v
layered none w = w

module _ (shell : Environ) where
  Layered : Environ × Fields → Type 0
  Layered state = (j : Text) → state.0 j ≡ layered (shell j) (loaded_value (lookup j state.1))

  layered_unset : (v w : Option Text) → layered v w ≡ none → v ≡ none
  layered_unset none w h = refl
  layered_unset (some a) w h = h

  -- A name that is set neither in the shell nor by an earlier line takes the new value.
  fresh :
      (k v : Text) (env : Environ) (loaded : Fields)
      → is_some (env k) ≡ false
      → Layered (env, loaded)
      → Layered (set_env k v env, insert k (str v) loaded)
  unfolding Layered
  fresh k v env loaded unset h j = elim (Bool-cases (text_eq k j)) [
    | inl same ↦
        let e : k ≡ j = (text_eq_iff k j).0 same in
        let free : shell j ≡ none =
          layered_unset (shell j) _ (sym (h j) ∙ ap env (sym e) ∙ not_there (env k) unset) in
        rw (same, lookup-insert j k (str v) loaded, same, free) refl
    | inr other ↦ rw (other, lookup-insert j k (str v) loaded, other) (h j)
  ]
    where
      not_there : (o : Option Text) → is_some o ≡ false → o ≡ none
      not_there none _ = refl
      not_there (some a) b = absurd (cc)

  set_default-Layered :
      (k v : Text) (state : Environ × Fields) → Layered state → Layered (set_default k v state)
  unfolding set_default
  set_default-Layered k v (env, loaded) h =
      elim (Bool-cases (not (is_empty k) && not (is_some (env k)))) [
        | inl free ↦ rw free (fresh k v env loaded (ground arith) h)
        | inr taken ↦ rw taken h
      ]

  assign-Layered :
      (kv : Option (Text × Text)) (state : Environ × Fields)
      → Layered state
      → Layered (assign kv state)
  assign-Layered none state h = h
  assign-Layered (some (k, v)) state h = set_default-Layered (strip k) (unquoted v) state h

  load_line-Layered :
      (raw : Text) (state : Environ × Fields) → Layered state → Layered (load_line raw state)
  unfolding load_line
  load_line-Layered raw state h =
      elim (Bool-cases (is_empty (strip raw) || starts_with (text "#") (strip raw))) [
        | inl skipped ↦ rw skipped h
        | inr read ↦ rw read (assign-Layered (partition b'=' (strip raw)) state h)
      ]

  load_lines-Layered :
      (lines : List Text) (state : Environ × Fields)
      → Layered state
      → Layered (load_lines lines state)
  unfolding load_lines
  load_lines-Layered [] state h = h
  load_lines-Layered (line ∷ lines) state h =
      load_lines-Layered lines (load_line line state) (load_line-Layered line state h)

  no_file : (o : Option Text) → o ≡ layered o none
  no_file none = refl
  no_file (some a) = refl

  -- After the file is loaded a name has the value that the shell gave it, if it gave one, and
  -- otherwise the value that is reported as loaded, if there is one.
  pub load_env_file-layered :
      (file : Option (List Text)) (j : Text)
      → (load_env_file file shell).0 j
        ≡ layered (shell j) (loaded_value (lookup j (load_env_file file shell).1))
  unfolding load_env_file Layered lookup
  load_env_file-layered none j = no_file (shell j)
  load_env_file-layered (some lines) j =
      load_lines-Layered lines (shell, end) (λ k. no_file (shell k)) j
