-- ===== src/Ledger/Ident.antt =====
-- src/draftbench/ledger.py: the patterns of identifiers, digests and attempt ids, and the checks
-- that raise on them.
use llm_draftbench.Prelude.{
  ℕ, String, Bool, false, List, [], ◌∷◌, ◌&&◌, ◌||◌, leb, nat_eq, length, all, Result, guard,
}
use llm_draftbench.Prelude.Text.{codes, member}
use llm_draftbench.Ledger.Types.{LedgerError, invalid_identifier, invalid_digest, invalid_code}

-- [0-9a-f]
is_hex : ℕ → Bool
is_hex c = (leb b'0' c && leb c b'9') || (leb b'a' c && leb c b'f')

-- [A-Za-z0-9]
is_alnum : ℕ → Bool
is_alnum c = (leb b'0' c && leb c b'9') || (leb b'A' c && leb c b'Z') || (leb b'a' c && leb c b'z')

-- [A-Za-z0-9._-]
is_word : ℕ → Bool
unfolding is_alnum
is_word c = is_alnum c || nat_eq c b'.' || nat_eq c b'_' || nat_eq c b'-'

-- [A-Za-z0-9][A-Za-z0-9._-]{0,127}
matches_identifier : List ℕ → Bool
unfolding is_word
matches_identifier [] = false
matches_identifier (c ∷ rest) = is_alnum c && all is_word rest && leb (length rest) 127

-- `_IDENTIFIER.fullmatch`, which the `CHECK` of `_sql_id` repeats.
unfoldable pub is_identifier : String → Bool
unfolding matches_identifier
is_identifier s = matches_identifier (codes s)

-- `_DIGEST.fullmatch`, which the `CHECK` of `_sql_hex` repeats.
unfoldable pub is_digest : String → Bool
unfolding is_hex
is_digest s = nat_eq (length (codes s)) 64 && all is_hex (codes s)

-- `_ATTEMPT.fullmatch`
unfoldable pub is_attempt : String → Bool
unfolding is_hex
is_attempt s = nat_eq (length (codes s)) 32 && all is_hex (codes s)

abbrev pub check_identifier : String → Result LedgerError (Unit {0})
check_identifier s = guard (is_identifier s) invalid_identifier

abbrev pub check_attempt : String → Result LedgerError (Unit {0})
check_attempt s = guard (is_attempt s) invalid_identifier

abbrev pub check_digest : String → Result LedgerError (Unit {0})
check_digest s = guard (is_digest s) invalid_digest

abbrev pub check_code : String → List String → Result LedgerError (Unit {0})
check_code s allowed = guard (member s allowed) invalid_code
