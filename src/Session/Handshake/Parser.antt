-- ===== src/Session/Handshake/Parser.antt =====
-- The readers of phone-auth-session/src/handshake.rs, with the errors of the session.
use bio_auth.Common.{
  ℕ, List, Result, ok, refuse, map_err, not, ◌==◌, length, String, ◌>>=◌ as then_result,
}
use bio_auth.Cbor.Reader.{Reader, Read}
use bio_auth.Cbor.Reader
use bio_auth.Session.Channel.{SessionError, cbor, invalid_frame}

abbrev pub Parser : Type 0 → Type 0
Parser A = Reader → Result SessionError (A × Reader)

infixl 5 ◌>>=◌ ◌>>◌
abbrev pub ◌>>=◌ : {A B : Type 0} → Parser A → (A → Parser B) → Parser B
◌>>=◌ p f r = then_result (p r) (λ x. f x.0 x.1)

abbrev pub ◌>>◌ : {B : Type 0} → Parser (Unit {0}) → Parser B → Parser B
p >> q = p >>= λ _. q

abbrev pub pure : {A : Type 0} → A → Parser A
pure a r = ok (a, r)

abbrev pub item : {A : Type 0} → Read A → Parser A
item read r = map_err cbor (read r)

abbrev pub check : {A : Type 0} → Result SessionError A → Parser A
check c r = then_result c (λ a. ok (a, r))

-- A number that must be the expected one.
unfoldable pub expect : Read ℕ → ℕ → String → Parser (Unit {0})
expect read expected message = do
  found ← item read
  check (refuse (not (found == expected)) (invalid_frame message))

-- `fixed(reader.bytes()?, message)` for 32 bytes.
unfoldable pub fixed : String → Parser (List ℕ)
fixed message = do
  value ← item Reader.bytes
  check (refuse (not (length value == 32)) (invalid_frame message))
  pure value
