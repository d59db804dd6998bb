-- ===== src/Auth/Decoding.antt =====
-- What a token that `decode_token` accepts is.
use voltaris_mobility_backen.Prelude.{ℕ, String, string_eq, ==-eq, not-eq-false, ◌≡◌, refl}
use voltaris_mobility_backen.Core.Platform.{Platform}
use voltaris_mobility_backen.Core.Keeps.{Keeps, keeps_rules, Keeps-raise_if}
use voltaris_mobility_backen.Core.Returns.{
  Returns, Returns-pure, Returns-fail, Returns-bind, Returns-raise_if,
}
use voltaris_mobility_backen.Database.Collections.{Db}
use voltaris_mobility_backen.Auth.Tokens.{
  Vault, Claims, Decoded, decoded, expired, invalid, TokenType, token_value, check_type,
  decode_token,
}

-- A text that decodes, at some time, to the claims of a token of that type.
abbrev pub IsToken : Platform → Vault → TokenType → String → Claims → Type 0
IsToken p vault kind token claims =
    ((now : ℕ) × (vault.jwt_decode now p.settings.service_name token ≡ decoded claims))
    × (claims.typ ≡ token_value kind)

module _ (p : Platform) (vault : Vault) (kind : TokenType) where
  check_type-Returns :
      {I : Db → Type 0} (token : String) (now : ℕ) (r : Decoded)
      → vault.jwt_decode now p.settings.service_name token ≡ r
      → Returns I (check_type p vault kind r) (IsToken p vault kind token)
  check_type-Returns token now expired e = Returns-fail _
  check_type-Returns token now invalid e = Returns-fail _
  check_type-Returns token now (decoded claims) e =
      Returns-raise_if _ _ _
        (λ same. Returns-pure claims ((now, e), ==-eq _ _ (not-eq-false _ same)))

  check_type-Keeps : {I : Db → Type 0} (r : Decoded) → Keeps I (check_type p vault kind r)
  check_type-Keeps expired = search keeps_rules
  check_type-Keeps invalid = search keeps_rules
  check_type-Keeps (decoded claims) = search (keeps_rules, Keeps-raise_if)

  pub decode_token-Keeps :
      {I : Db → Type 0} (token : String) → Keeps I (decode_token p vault token kind)
  unfolding decode_token
  decode_token-Keeps token = search (keeps_rules, check_type-Keeps)

  pub decode_token-Returns :
      {I : Db → Type 0} (token : String)
      → Returns I (decode_token p vault token kind) (IsToken p vault kind token)
  unfolding decode_token
  decode_token-Returns token =
      Returns-bind _ _ (search keeps_rules) (λ now. check_type-Returns token _ _ refl)
