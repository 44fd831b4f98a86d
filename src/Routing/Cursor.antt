-- ===== src/Routing/Cursor.antt =====
-- The round-robin cursor, src/routing/round-robin-cursor.ts. The counter is unbounded; the source's
-- double loses exactness only past 2 ^ 53 calls.
use ms_gatgeway_llm.Base.{
  ℕ, ◌+◌, ◌%◌, String, [], Option, none, some, nat_eq, if◌then◌else◌, string_key, Dict, get, put,
}

pub record RoundRobinCursor : Type 0 where
  pub cursors : Dict String ℕ

abbrev or_zero : Option ℕ → ℕ
or_zero none = 0
or_zero (some n) = n

-- `this.cursors.get(key) ?? 0`.
unfoldable pub current : String → RoundRobinCursor → ℕ
current key c = or_zero (get key c.cursors)

unfoldable pub next : String → ℕ → RoundRobinCursor → ℕ × RoundRobinCursor
next key length c = if nat_eq length 0 then (0, c) else (
  (current key c % length + length) % length,
  record { cursors = put key (current key c + 1) c.cursors },
)

unfoldable pub reset : RoundRobinCursor → RoundRobinCursor
reset c = record { cursors = [] }
