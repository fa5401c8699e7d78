-- ===== src/Compiler/Key/Flags.antt =====
-- The flags chunk of the cache key determines the flags that it is meant to hold.
use hpcc.Prelude.{◌≡◌, sym, ap, ◌∙◌, Bool, true, false, List, [], ◌∷◌, Bytes, codes, arith, All}
use hpcc.Prelude.Assoc.{lookup, Distinct}
use hpcc.Compiler.Invocation.{Invocation, InvocationMode, unknown_mode}
use hpcc.Compiler.Key.{
  define_entries, mode_digits, sort_by_key, filter_passthrough, filter_irrelevant_passthrough,
  cache_key_flags,
}
use hpcc.Compiler.Key.Decode.{Free, IsItem, write_list_inv, write_kv_inv}
use hpcc.Compiler.Key.Defines.{
  IsDefine, define_entries_injective, sort_by_key-IsItem, sort_by_key-All, lookup-sort_by_key,
}

-- The values that argv can hold hold no null; the items of the lists are not empty.
pub record IsKeyable (inv : Invocation) : Type 0 where
  pub includes : All IsItem inv.includes
  pub system_includes : All IsItem inv.system_includes
  pub undefines : All IsItem inv.undefines
  pub defines : All IsDefine inv.defines
  pub distinct : Distinct inv.defines
  pub std : Free 0 inv.std
  pub optim : Free 0 inv.optim
  pub debug : Free 0 inv.debug
  pub language : Free 0 inv.language
  pub warnings : All IsItem inv.warnings
  pub features : All IsItem inv.features
  pub machine : All IsItem inv.machine
  pub passthrough : All IsItem inv.passthrough
  pub unknown : All IsItem inv.unknown

-- The two agree in every field of the key: the macros as a map, the passed-on flags without those
-- that only concern dependency files.
pub record SameFlags (a b : Invocation) : Type 0 where
  pub includes : a.includes ≡ b.includes
  pub system_includes : a.system_includes ≡ b.system_includes
  pub undefines : a.undefines ≡ b.undefines
  pub defines : (k : Bytes) → lookup k a.defines ≡ lookup k b.defines
  pub std : a.std ≡ b.std
  pub optim : a.optim ≡ b.optim
  pub debug : a.debug ≡ b.debug
  pub language : a.language ≡ b.language
  pub mode : a.mode ≡ b.mode
  pub warnings : a.warnings ≡ b.warnings
  pub features : a.features ≡ b.features
  pub machine : a.machine ≡ b.machine
  pub passthrough :
      filter_irrelevant_passthrough a.passthrough ≡ filter_irrelevant_passthrough b.passthrough
  pub unknown : a.unknown ≡ b.unknown

filter_passthrough-IsItem :
    (skip : Bool) (l : List Bytes) → All IsItem l → All IsItem (filter_passthrough skip l)
unfolding filter_passthrough
filter_passthrough-IsItem skip [] h = tt
filter_passthrough-IsItem true (a ∷ l) h = filter_passthrough-IsItem false l h.1
filter_passthrough-IsItem false (a ∷ l) h =
    ground (arith, filter_passthrough-IsItem false l h.1, filter_passthrough-IsItem true l h.1)

mode_digits-Free : (m : InvocationMode) → Free 0 (mode_digits m)
mode_digits-Free unknown_mode = omega arith
mode_digits-Free _ = omega arith

mode_digits_injective : (m n : InvocationMode) → mode_digits m ≡ mode_digits n → m ≡ n
mode_digits_injective m n e = ground arith

-- Two invocations without nulls and without empty list entries that have the same flags chunk
-- agree in the mode, in every other single flag, in every list of flags and their order, in the
-- macro definitions as a map, and in the passed-on flags that remain once the dependency-file
-- flags are filtered out.
pub cache_key_flags_injective :
    (a b : Invocation)
    → IsKeyable a
    → IsKeyable b
    → cache_key_flags a ≡ cache_key_flags b
    → SameFlags a b
unfolding cache_key_flags filter_irrelevant_passthrough
cache_key_flags_injective a b ka kb e =
    let s1 = write_list_inv (codes "I") a.includes b.includes _ _ ka.includes kb.includes e in
    let s2 =
      write_list_inv (codes "isystem") a.system_includes b.system_includes _ _ ka.system_includes
        kb.system_includes s1.1 in
    let s3 =
      write_list_inv (codes "U") a.undefines b.undefines _ _ ka.undefines kb.undefines s2.1 in
    let s4 =
      write_list_inv (codes "D") (define_entries (sort_by_key a.defines))
        (define_entries (sort_by_key b.defines)) _ _ (sort_by_key-IsItem a.defines ka.defines)
        (sort_by_key-IsItem b.defines kb.defines) s3.1 in
    let s5 = write_kv_inv (codes "std") a.std b.std _ _ ka.std kb.std s4.1 in
    let s6 = write_kv_inv (codes "opt") a.optim b.optim _ _ ka.optim kb.optim s5.1 in
    let s7 = write_kv_inv (codes "dbg") a.debug b.debug _ _ ka.debug kb.debug s6.1 in
    let s8 = write_kv_inv (codes "lang") a.language b.language _ _ ka.language kb.language s7.1 in
    let s9 =
      write_kv_inv (codes "mode") (mode_digits a.mode) (mode_digits b.mode) _ _
        (mode_digits-Free a.mode) (mode_digits-Free b.mode) s8.1 in
    let s10 = write_list_inv (codes "W") a.warnings b.warnings _ _ ka.warnings kb.warnings s9.1 in
    let s11 = write_list_inv (codes "f") a.features b.features _ _ ka.features kb.features s10.1 in
    let s12 = write_list_inv (codes "m") a.machine b.machine _ _ ka.machine kb.machine s11.1 in
    let s13 =
      write_list_inv (codes "pass") (filter_passthrough false a.passthrough)
        (filter_passthrough false b.passthrough) _ _
        (filter_passthrough-IsItem false a.passthrough ka.passthrough)
        (filter_passthrough-IsItem false b.passthrough kb.passthrough) s12.1 in
    let s14 = write_list_inv (codes "unk") a.unknown b.unknown _ _ ka.unknown kb.unknown s13.1 in
    let sorted =
      define_entries_injective (sort_by_key a.defines) (sort_by_key b.defines)
        (sort_by_key-All a.defines ka.defines) (sort_by_key-All b.defines kb.defines) s4.0 in
    record {
      includes = s1.0;
      system_includes = s2.0;
      undefines = s3.0;
      defines = λ k.
          sym (lookup-sort_by_key k a.defines ka.distinct)
          ∙ ap (lookup k) sorted
          ∙ lookup-sort_by_key k b.defines kb.distinct;
      std = s5.0;
      optim = s6.0;
      debug = s7.0;
      language = s8.0;
      mode = mode_digits_injective a.mode b.mode s9.0;
      warnings = s10.0;
      features = s11.0;
      machine = s12.0;
      passthrough = s13.0;
      unknown = s14.0;
    }
