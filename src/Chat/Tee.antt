-- ===== src/Chat/Tee.antt =====
-- The tapped stream, `teeStream` of src/chat/chat.service.ts: an iterator that passes the chunks on
-- and keeps them for the accounting. `C` are the chunks and `E` what the upstream throws.
use ms_gatgeway_llm.Base.{Bool, true, false, Option, none, some, List, [], ◌∷◌, ◌++◌, if◌then◌else◌}

module _ (C E : Type 0) where
  -- How `inner.next()` ends; `fails none` is a thrown `undefined`.
  pub data Pull : Type 0 where
    value : C → Pull
    done : Pull
    fails : Option E → Pull

  -- A call of the iterator, with what the inner one does.
  pub data Call : Type 0 where
    next : Pull → Call
    early_return : Call

  -- How the promise `logged` is settled; what it resolves with is the buffer `chunks`.
  pub data Settled : Type 0 where
    resolved : Settled
    rejected : E → Settled

  pub record Tap : Type 0 where
    pub chunks : List C
    pub closed : Bool
    pub logged : Option Settled

  abbrev pub new_tap : Tap
  new_tap = record { chunks = []; closed = false; logged = none }

  abbrev pub settle : Option E → Settled
  settle none = resolved
  settle (some e) = rejected e

  unfoldable pub close : Option E → Tap → Tap
  close err t = if t.closed then t else record t { closed = true; logged = some (settle err) }

  -- What the caller of the iterator gets.
  pub data Given : Type 0 where
    chunk : C → Given
    end : Given
    thrown : Option E → Given

  unfoldable pub pull : Pull → Tap → Tap × Given
  pull (value c) t = (record t { chunks = t.chunks ++ c ∷ [] }, chunk c)
  pull done t = (close none t, end)
  pull (fails e) t = (close e t, thrown e)

  unfoldable pub call : Call → Tap → Tap × Given
  call (next p) t = pull p t
  call early_return t = (close none t, end)

  unfoldable pub run_calls : List Call → Tap → Tap × List Given
  run_calls [] t = (t, [])
  run_calls (c ∷ calls) t =
      let (t', given) = call c t in let (t'', rest) = run_calls calls t' in (t'', given ∷ rest)
