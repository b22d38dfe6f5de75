-- ===== src/Consensus/Nonunl/Takeover.antt =====
-- The inputs that users have submitted are taken over once, and none stays behind.
use hpcore.Base.{◌≡◌, List, Option, none, some, Bytes, All}
use hpcore.Usr.Inputs.{SubmittedUserInput}
use hpcore.Usr.Users.{ConnectedUser, Users}
use hpcore.Consensus.Nonunl.{without_inputs}

abbrev first {ℓ} : {A : Type ℓ} → Option A → Option A → Option A
first (some a) other = some a
first none other = other

abbrev pub inputs_of : Option ConnectedUser → Option (List SubmittedUserInput)
inputs_of none = none
inputs_of (some user) = some user.submitted_inputs

-- Every user stands under its key.
abbrev pub AreKeyed : Users → Type 0
AreKeyed = All (λ (e : Bytes × ConnectedUser). e.1.pubkey ≡ e.0)

abbrev pub cleared_user : Option ConnectedUser → Option ConnectedUser
cleared_user none = none
cleared_user (some user) = some (without_inputs user)
