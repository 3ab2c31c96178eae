-- ===== src/Live/Claims.antt =====
-- Who may send an attempt: its claim is given once at most, and never after it was revoked.
use alpha_mint_x.Base.{
  ℕ, suc, String, Bool, false, ◌&&◌, Option, none, some, List, [], ◌∷◌, ◌=ₛ◌, Result, ok, err,
  if◌then◌else◌,
}
use alpha_mint_x.Store.{StoreError}
use alpha_mint_x.Live.Types.{OrderIntent, Journal}
use alpha_mint_x.Live.Writes.{record_intent_claim, record_intent_claim_revoked, is_free}

-- The two writes on the claim of an attempt, each at a time.
pub data ClaimWrite : Type 0 where
  claim revoke : String → String → ClaimWrite

abbrev pub kept {ℓ} : {A : Type ℓ} → Journal → Result StoreError (A × Journal) → Journal
kept j (err e) = j
kept j (ok r) = r.1

abbrev pub kept_journal : Journal → Result StoreError Journal → Journal
kept_journal j (err e) = j
kept_journal j (ok k) = k

abbrev pub after_write : ClaimWrite → Journal → Journal
after_write (ClaimWrite.claim id at) j = kept j (record_intent_claim id at j)
after_write (ClaimWrite.revoke id at) j = kept_journal j (record_intent_claim_revoked id at j)

abbrev is_claim : Result StoreError (Bool × Journal) → Bool
is_claim (err e) = false
is_claim (ok r) = r.0

-- How many claims of an attempt succeed in a sequence of writes.
abbrev pub claims_of : String → List ClaimWrite → Journal → ℕ
claims_of id [] j = 0
claims_of id (ClaimWrite.revoke k at ∷ ws) j =
    claims_of id ws (after_write (ClaimWrite.revoke k at) j)
claims_of id (ClaimWrite.claim k at ∷ ws) j =
    let rest = claims_of id ws (after_write (ClaimWrite.claim k at) j) in
    if (k =ₛ id) && is_claim (record_intent_claim k at j) then suc rest else rest

-- 1 where the attempt can be claimed.
abbrev free_of : Option OrderIntent → ℕ
free_of none = 0
free_of (some i) = if is_free i then 1 else 0
