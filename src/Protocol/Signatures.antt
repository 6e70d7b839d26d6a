-- ===== src/Protocol/Signatures.antt =====
-- What a check by `assertIsValidSignature` tells.
use indrav.Prelude.{ℕ, ◌≡◌, refl, ◌∙◌, sym, ap, Option, none, some, ◌==◌, ==_iff}
use indrav.Prelude.Result.{ok, invalid_signature, >>=-eq-ok, guard-eq-ok}
use indrav.Types.{Address, Platform}
use indrav.Commitment.{Signature, Commitment, Ethereum, hash_to_sign, assert_is_valid_signature}

module _ ⦃p : Platform⦄ ⦃eth : Ethereum⦄ where
  -- A signature on the commitment's hash is at hand that recovers to the address.
  pub record SignedBy (address : Address) (commitment : Commitment) : Type 0 where
    pub signature : Signature
    pub recovers :
        eth.recover_address (hash_to_sign commitment) signature ≡ ok (p.get_address address)

  pub assert-SignedBy :
      (address : Address) (commitment : Commitment) (s : Option Signature) {u : Unit {0}}
      → assert_is_valid_signature address commitment s ≡ ok u
      → SignedBy address commitment
  unfolding assert_is_valid_signature
  assert-SignedBy address commitment none h = absurd (cc)
  assert-SignedBy address commitment (some s) h =
      let (signer, e, h1) = >>=-eq-ok (eth.recover_address (hash_to_sign commitment) s) _ h in
      let same =
        (==_iff (p.get_address address) signer).0
          (guard-eq-ok (p.get_address address == signer) invalid_signature h1) in
      record { signature = s; recovers = e ∙ ap ok (sym same) }

  -- The party's signature on the commitment recovers to the address.
  abbrev pub Honest : (Commitment → Option ℕ → Signature) → Address → Commitment → Option ℕ → Type 0
  Honest signer address commitment index =
      eth.recover_address (hash_to_sign commitment) (signer commitment index)
      ≡ ok (p.get_address address)

  pub assert-Honest :
      (signer : Commitment → Option ℕ → Signature) (address : Address) (commitment : Commitment)
      (index : Option ℕ)
      → Honest signer address commitment index
      → assert_is_valid_signature address commitment (some (signer commitment index)) ≡ ok tt
  unfolding assert_is_valid_signature
  assert-Honest signer address commitment index h =
      rw (h, (==_iff (p.get_address address) (p.get_address address)).1 refl) refl
