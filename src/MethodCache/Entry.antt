-- ===== src/MethodCache/Entry.antt =====
-- packages/pagecapture/src/pagecapture/cache.py: MethodEntry and `record_comparison`.
use stolosio.Prelude.{
  ℕ, ◌+◌, ◌*◌, Option, none, some, Bool, true, false, not, ◌&&◌, ◌||◌, Time, if◌then◌else◌, leb,
  ◌==◌,
}

-- `typical_bytes`, a float in the program and exact here.
pub record Ratio : Type 0 where
  pub numerator : ℕ
  pub denominator : ℕ

pub record MethodEntry : Type 0 where
  pub comparisons : ℕ
  pub sufficient : ℕ
  pub contradictions : ℕ
  pub last_seen : Time
  pub typical_bytes : Ratio
  pub last_sufficient : Bool

abbrev pub new_entry : MethodEntry
new_entry = record {
  comparisons = 0;
  sufficient = 0;
  contradictions = 0;
  last_seen = 0;
  typical_bytes = record { numerator = 0; denominator = 1 };
  last_sufficient = false;
}

-- now - entry.last_seen <= ttl_s
abbrev pub is_current : Time → Time → MethodEntry → Bool
is_current ttl now e = leb now (e.last_seen + ttl)

abbrev pub current_or_new : Time → Time → Option MethodEntry → MethodEntry
current_or_new ttl now none = new_entry
current_or_new ttl now (some e) = if is_current ttl now e then e else new_entry

-- 0.8 * typical + 0.2 * http_bytes, from the second comparison on
abbrev pub smoothed : Ratio → ℕ → Ratio
smoothed r http_bytes =
    if r.numerator == 0 then record { numerator = http_bytes; denominator = 1 } else record {
      numerator = 4 * r.numerator + http_bytes * r.denominator;
      denominator = 5 * r.denominator;
    }

abbrev pub one_if : Bool → ℕ
one_if true = 1
one_if false = 0

abbrev pub compared : Bool → ℕ → Time → MethodEntry → MethodEntry
compared sufficient http_bytes now e = record {
  comparisons = e.comparisons + 1;
  sufficient = e.sufficient + one_if sufficient;
  contradictions = e.contradictions + one_if (not sufficient);
  last_sufficient = sufficient;
  typical_bytes = smoothed e.typical_bytes http_bytes;
  last_seen = now;
}

unfoldable pub record_comparison : Option MethodEntry → Bool → ℕ → Time → Time → MethodEntry
record_comparison e sufficient http_bytes now ttl =
    compared sufficient http_bytes now (current_or_new ttl now e)

-- typical_bytes <= 0 or 0.5 * typical_bytes <= http_bytes <= 2.0 * typical_bytes
abbrev pub is_usual : ℕ → MethodEntry → Bool
is_usual http_bytes e =
    let r = e.typical_bytes in
    r.numerator == 0
    || (leb r.numerator (2 * (http_bytes * r.denominator))
        && leb (http_bytes * r.denominator) (2 * r.numerator))
