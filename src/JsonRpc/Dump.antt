-- ===== src/JsonRpc/Dump.antt =====
-- `cast2dump` of ipapp/rpc/jsonrpc/main.py: what it makes of a result is fit for JSON.
use ipapp.Common.{◌≡◌, refl, Option, none, some}
use ipapp.Common.Exec.{ok}
use ipapp.JsonRpc.{
  Value, null, bool, number, text, bytes, default_of, required, model, mapping, sequence, Fields,
  no_field, field, Values, no_value, value, cast2dump, cast_fields, cast_values,
}

-- Only null, truth values, numbers, texts, objects and arrays.
abbrev mutual
  pub IsPlain : Value → Type 0
  IsPlain null = Unit
  IsPlain (bool b) = Unit
  IsPlain (number n) = Unit
  IsPlain (text t) = Unit
  IsPlain (bytes t) = ⊥
  IsPlain (default_of v) = ⊥
  IsPlain required = ⊥
  IsPlain (model fs) = ⊥
  IsPlain (mapping fs) = ArePlainFields fs
  IsPlain (sequence vs) = ArePlain vs

  pub ArePlainFields : Fields → Type 0
  ArePlainFields no_field = Unit
  ArePlainFields (field key v fs) = IsPlain v × ArePlainFields fs

  pub ArePlain : Values → Type 0
  ArePlain no_value = Unit
  ArePlain (value v vs) = IsPlain v × ArePlain vs

abbrev pub IsPlainInfo : Option Value → Type 0
IsPlainInfo none = Unit
IsPlainInfo (some v) = IsPlain v

-- No required default, and every other default is plain.
abbrev mutual
  pub IsComplete : Value → Type 0
  IsComplete null = Unit
  IsComplete (bool b) = Unit
  IsComplete (number n) = Unit
  IsComplete (text t) = Unit
  IsComplete (bytes t) = Unit
  IsComplete (default_of v) = IsPlain v
  IsComplete required = ⊥
  IsComplete (model fs) = AreCompleteFields fs
  IsComplete (mapping fs) = AreCompleteFields fs
  IsComplete (sequence vs) = AreComplete vs

  pub AreCompleteFields : Fields → Type 0
  AreCompleteFields no_field = Unit
  AreCompleteFields (field key v fs) = IsComplete v × AreCompleteFields fs

  pub AreComplete : Values → Type 0
  AreComplete no_value = Unit
  AreComplete (value v vs) = IsComplete v × AreComplete vs

mutual
  unfolding cast2dump cast_fields cast_values

  cast2dump-IsPlain : (v : Value) → IsComplete v → (w : Value) × (cast2dump v ≡ ok w) × IsPlain w
  cast2dump-IsPlain null h = (null, refl, tt)
  cast2dump-IsPlain (bool b) h = (bool b, refl, tt)
  cast2dump-IsPlain (number n) h = (number n, refl, tt)
  cast2dump-IsPlain (text t) h = (text t, refl, tt)
  cast2dump-IsPlain (bytes t) h = (text t, refl, tt)
  cast2dump-IsPlain (default_of v) h = (v, refl, h)
  cast2dump-IsPlain required h = absurd h
  cast2dump-IsPlain (model fs) h =
      let (gs, e, plain) = cast_fields-ArePlain fs h in (mapping gs, rw e refl, plain)
  cast2dump-IsPlain (mapping fs) h =
      let (gs, e, plain) = cast_fields-ArePlain fs h in (mapping gs, rw e refl, plain)
  cast2dump-IsPlain (sequence vs) h =
      let (ws, e, plain) = cast_values-ArePlain vs h in (sequence ws, rw e refl, plain)

  cast_fields-ArePlain :
      (fs : Fields)
      → AreCompleteFields fs
      → (gs : Fields) × (cast_fields fs ≡ ok gs) × ArePlainFields gs
  cast_fields-ArePlain no_field h = (no_field, refl, tt)
  cast_fields-ArePlain (field key v fs) h =
      let (w, e, plain) = cast2dump-IsPlain v h.0 in
      let (gs, f, plains) = cast_fields-ArePlain fs h.1 in
      (field key w gs, rw (e, f) refl, (plain, plains))

  cast_values-ArePlain :
      (vs : Values) → AreComplete vs → (ws : Values) × (cast_values vs ≡ ok ws) × ArePlain ws
  cast_values-ArePlain no_value h = (no_value, refl, tt)
  cast_values-ArePlain (value v vs) h =
      let (w, e, plain) = cast2dump-IsPlain v h.0 in
      let (ws, f, plains) = cast_values-ArePlain vs h.1 in
      (value w ws, rw (e, f) refl, (plain, plains))

-- A result without a required default, and whose other defaults are fit for JSON as they are, is
-- dumped, to a value that is fit for JSON throughout.
pub cast2dump_lem : (v : Value) → IsComplete v → (w : Value) × (cast2dump v ≡ ok w) × IsPlain w
cast2dump_lem v h = cast2dump-IsPlain v h

mutual
  unfolding cast2dump cast_fields cast_values

  pub cast2dump-plain : (v : Value) → IsPlain v → cast2dump v ≡ ok v
  cast2dump-plain null h = refl
  cast2dump-plain (bool b) h = refl
  cast2dump-plain (number n) h = refl
  cast2dump-plain (text t) h = refl
  cast2dump-plain (bytes t) h = absurd h
  cast2dump-plain (default_of v) h = absurd h
  cast2dump-plain required h = absurd h
  cast2dump-plain (model fs) h = absurd h
  cast2dump-plain (mapping fs) h = rw (cast_fields-plain fs h) refl
  cast2dump-plain (sequence vs) h = rw (cast_values-plain vs h) refl

  cast_fields-plain : (fs : Fields) → ArePlainFields fs → cast_fields fs ≡ ok fs
  cast_fields-plain no_field h = refl
  cast_fields-plain (field key v fs) h = rw (cast2dump-plain v h.0, cast_fields-plain fs h.1) refl

  cast_values-plain : (vs : Values) → ArePlain vs → cast_values vs ≡ ok vs
  cast_values-plain no_value h = refl
  cast_values-plain (value v vs) h = rw (cast2dump-plain v h.0, cast_values-plain vs h.1) refl
