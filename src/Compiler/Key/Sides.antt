-- ===== src/Compiler/Key/Sides.antt =====
-- The client derives a key before it dispatches, the worker from the digest that it was sent.
use hpcc.Prelude.{◌≡◌, Bytes, arith, some}
use hpcc.Compiler.Invocation.{Invocation}
use hpcc.Compiler.Key.{Context, ok, source_chunk}

abbrev pub with_manifest : Invocation → Bytes → Invocation
with_manifest inv m = record inv { manifest_digest = some m }

manifest_source :
    (c : Context) (inv : Invocation) (s m : Bytes) → source_chunk c inv ≡ ok (s, some m) → s ≡ m
unfolding source_chunk
manifest_source c inv s m e = ground arith
