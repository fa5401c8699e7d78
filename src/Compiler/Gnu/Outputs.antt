-- ===== src/Compiler/Gnu/Outputs.antt =====
-- For a compile, the file that the cache reads and writes.
use hpcc.Prelude.{
  ℕ, ◌≡◌, ◌≢◌, refl, ap, sym, ◌∙◌, inl, inr, true, false, ◌||◌, none, some, [], ◌∷◌, ◌++◌, Bytes,
  codes, arith, Bool-cases, bytes_eq, bytes_eq_iff, if◌then◌else◌, ◌==◌,
}
use mathlib.Core.List.{append_assoc, append-nil}
use hpcc.Compiler.Invocation.{
  Invocation, InvocationMode, compile_mode, link_mode, is_compile, is_unknown, cacheable,
  cacheable_shape, reads_stdin,
}
use hpcc.Compiler.Gnu.{finish, infer_default_output, base_name, base_from, trim_ext, cut_last_dot}

-- Neither separator of a path, nor a dot.
abbrev pub IsName : Bytes → Type 0
IsName [] = Unit {0}
IsName (c ∷ s) = (c ≢ b'/') × (c ≢ 92) × (c ≢ b'.') × IsName s

-- No separator, though dots are allowed.
abbrev pub IsBase : Bytes → Type 0
IsBase [] = Unit {0}
IsBase (c ∷ s) = (c ≢ b'/') × (c ≢ 92) × IsBase s

base_from-IsBase : (s base : Bytes) → IsBase s → base_from base s ≡ base ++ s
unfolding base_from
base_from-IsBase [] base h = sym (append-nil base)
base_from-IsBase (c ∷ s) base h =
    let plain : (c == b'/' || c == 92) ≡ false = ground arith in
    rw plain (base_from-IsBase s (base ++ c ∷ []) h.2 ∙ append_assoc base (c ∷ []) s)

base_from-dir : (dir base s : Bytes) → IsBase s → base_from base (dir ++ (b'/' ∷ s)) ≡ s
unfolding base_from
base_from-dir [] base s h = base_from-IsBase s [] h
base_from-dir (c ∷ dir) base s h = base_from-dir dir _ s h

cut_last_dot-IsName : (ext : Bytes) → IsName ext → cut_last_dot ext ≡ none
unfolding cut_last_dot
cut_last_dot-IsName [] h = refl
cut_last_dot-IsName (c ∷ s) h = ground (arith, cut_last_dot-IsName s h.3)

cut_last_dot-append : (s ext : Bytes) → IsName ext → cut_last_dot (s ++ (b'.' ∷ ext)) ≡ some s
unfolding cut_last_dot
cut_last_dot-append [] ext h = rw (cut_last_dot-IsName ext h)
cut_last_dot-append (c ∷ s) ext h = rw (cut_last_dot-append s ext h)

IsName→IsBase : (s : Bytes) → IsName s → IsBase s
IsName→IsBase [] h = tt
IsName→IsBase (c ∷ s) h = (h.0, h.1, IsName→IsBase s h.3)

IsBase-dot : (s ext : Bytes) → IsBase s → IsName ext → IsBase (s ++ (b'.' ∷ ext))
IsBase-dot [] ext h k = ((λ e. omega arith), (λ e. omega arith), IsName→IsBase ext k)
IsBase-dot (c ∷ s) ext h k = (h.0, h.1, IsBase-dot s ext h.2 k)

not_stdin : (dir : Bytes) (s : Bytes) → bytes_eq (dir ++ (b'/' ∷ s)) (codes "-") ≡ false
unfolding bytes_eq
not_stdin [] s = refl
not_stdin (c ∷ []) s = ground arith
not_stdin (c ∷ d ∷ dir) s = ground arith

-- A path of a directory, a base name of at least one byte and an extension.
abbrev pub source_path : Bytes → Bytes → Bytes → Bytes
source_path dir stem ext = dir ++ (b'/' ∷ (stem ++ (b'.' ∷ ext)))

trim_ext-source :
    (dir : Bytes) (c : ℕ) (stem ext : Bytes)
    → IsBase (c ∷ stem)
    → IsName ext
    → trim_ext (base_name (source_path dir (c ∷ stem) ext)) ≡ c ∷ stem
unfolding trim_ext base_name
trim_ext-source dir c stem ext h k = rw (
  base_from-dir dir [] ((c ∷ stem) ++ (b'.' ∷ ext)) (IsBase-dot (c ∷ stem) ext h k),
  cut_last_dot-append (c ∷ stem) ext k,
)

-- For a compile without an output name and with the one input dir/stem.ext, where the stem is not
-- empty and has no separator, and the extension has neither a dot nor a separator,
-- infer_default_output sets the output to the stem followed by the object extension and changes
-- nothing else.
pub infer_default_output-source :
    (inv : Invocation) (obj_ext dir : Bytes) (c : ℕ) (stem ext : Bytes)
    → IsBase (c ∷ stem)
    → IsName ext
    → inv.mode ≡ compile_mode
    → inv.output ≡ []
    → inv.inputs ≡ source_path dir (c ∷ stem) ext ∷ []
    → infer_default_output obj_ext inv ≡ record inv { output = (c ∷ stem) ++ obj_ext }
unfolding infer_default_output is_compile bytes_eq
infer_default_output-source inv obj_ext dir c stem ext h k mode output inputs =
    rw
      (
        mode,
        output,
        inputs,
        not_stdin dir ((c ∷ stem) ++ (b'.' ∷ ext)),
        trim_ext-source dir c stem ext h k,
      )
      refl

infer_ne_nil :
    (obj_ext i : Bytes) (inv : Invocation)
    → inv.inputs ≡ i ∷ []
    → is_compile inv.mode ≡ true
    → bytes_eq i (codes "-") ≡ false
    → trim_ext (base_name i) ≢ []
    → (infer_default_output obj_ext inv).output ≢ []
unfolding infer_default_output
infer_ne_nil obj_ext i inv e mode plain h = elim (Bool-cases (bytes_eq inv.output [])) [
  | inl empty ↦ rw (e, mode, plain, empty) (λ q. ground (arith, h))
  | inr given ↦ rw (mode, given) (λ q. let p = (bytes_eq_iff inv.output []).1 q in cc)
]

cacheable→shape :
    (inv : Invocation)
    → cacheable inv ≡ true
    → (is_compile inv.mode ≡ true) × (reads_stdin inv ≡ false)
unfolding cacheable cacheable_shape
cacheable→shape inv c = ground arith

finish-inputs : (obj_ext : Bytes) (inv : Invocation) → (finish obj_ext inv).inputs ≡ inv.inputs
unfolding finish
finish-inputs obj_ext inv = ground arith

settled : (m : InvocationMode) → is_compile (if is_unknown m then link_mode else m) ≡ is_compile m
unfolding is_unknown is_compile
settled m = ground arith

finish-mode_eq :
    (obj_ext : Bytes) (inv : Invocation)
    → (finish obj_ext inv).mode ≡ (if is_unknown inv.mode then link_mode else inv.mode)
unfolding finish
finish-mode_eq obj_ext inv = ground arith

not_stdin_input :
    (i : Bytes) (inv : Invocation)
    → inv.inputs ≡ i ∷ []
    → reads_stdin inv ≡ false
    → bytes_eq i (codes "-") ≡ false
unfolding reads_stdin
not_stdin_input i inv e r = ground arith

-- An invocation that is cacheable once finish has settled it, with one input whose base name
-- without extension is not empty, has an output file name, so the cache has a file to write.
pub cacheable-output :
    (obj_ext i : Bytes) (inv : Invocation)
    → cacheable (finish obj_ext inv) ≡ true
    → inv.inputs ≡ i ∷ []
    → trim_ext (base_name i) ≢ []
    → (finish obj_ext inv).output ≢ []
cacheable-output obj_ext i inv c e h =
    let shape = cacheable→shape (finish obj_ext inv) c in
    let plain = not_stdin_input i (finish obj_ext inv) (finish-inputs obj_ext inv ∙ e) shape.1 in
    let compiles : is_compile inv.mode ≡ true =
      sym (settled inv.mode) ∙ sym (ap is_compile (finish-mode_eq obj_ext inv)) ∙ shape.0 in
    unfold finish in
    infer_ne_nil obj_ext i
      (record inv { mode = if is_unknown inv.mode then link_mode else inv.mode }) e
      (settled inv.mode ∙ compiles) plain h
