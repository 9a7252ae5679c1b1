-- ===== src/Orgs/Ownership/Effects.antt =====
-- What a handler may do to the members and invitations, and that it keeps one owner.
use seo_agent_rct.Prelude.{ℕ, ◌≡◌, ◌≢◌, refl, true, false, some, List, [], ◌∷◌, arith, nat_key, All}
use seo_agent_rct.Dict
use seo_agent_rct.Dict.Laws.{get-put, get-remove}
use seo_agent_rct.Text.{Text}
use seo_agent_rct.Orgs.Rows.{Role, is_owner, InvitationStatus, Invitation, Org, owner, admin}
use seo_agent_rct.Orgs.Invitations.{get_invitation_by_token, set_status}

-- The user `o` is the one owner, and no invitation makes another.
pub record IsOwnedBy (o : ℕ) (g : Org) : Type 0 where
  pub here : Dict.get g.members o ≡ some owner
  pub only : (u : ℕ) (role : Role) → Dict.get g.members u ≡ some role → is_owner role ≡ true → u ≡ o
  pub offers : All (λ inv. is_owner inv.role ≡ false) g.invitations

abbrev pub IsOwned : Org → Type 0
IsOwned g = (o : ℕ) × IsOwnedBy o g

pub set_status-All :
    (s : InvitationStatus) (id : ℕ) (invs : List Invitation)
    → All (λ inv. is_owner inv.role ≡ false) invs
    → All (λ inv. is_owner inv.role ≡ false) (set_status s id invs)
unfolding set_status
set_status-All s id [] h = tt
set_status-All s id (inv ∷ invs) h = (ground (arith, h.0), set_status-All s id invs h.1)

pub found_offer :
    (now : ℕ) (token : Text) (invs : List Invitation) (inv : Invitation)
    → All (λ inv. is_owner inv.role ≡ false) invs
    → get_invitation_by_token now token invs ≡ some inv
    → is_owner inv.role ≡ false
unfolding get_invitation_by_token
found_offer now token [] inv h e = cc
found_offer now token (i ∷ invs) inv h e = ground (arith, h.0, found_offer now token invs inv h.1)

-- A user who is not the owner gets a role other than owner.
put-IsOwnedBy :
    (o u : ℕ) (role : Role) (g : Org) (invs : List Invitation)
    → IsOwnedBy o g
    → Dict.get g.members u ≢ some owner
    → is_owner role ≡ false
    → All (λ inv. is_owner inv.role ≡ false) invs
    → IsOwnedBy o (record g { members = Dict.put g.members u role; invitations = invs })
put-IsOwnedBy o u role g invs v other plain offers = record {
  here = ground (arith, get-put g.members u o role, v.here, other);
  only = λ k r h m. ground (arith, get-put g.members u k role, v.only k r);
  offers = offers;
}

remove-IsOwnedBy :
    (o u : ℕ) (g : Org)
    → IsOwnedBy o g
    → Dict.get g.members u ≢ some owner
    → IsOwnedBy o (record g { members = Dict.remove g.members u })
remove-IsOwnedBy o u g v other = record {
  here = ground (arith, get-remove g.members u o, v.here, other);
  only = λ k r h m. ground (arith, get-remove g.members u k, v.only k r);
  offers = v.offers;
}

moved-IsOwnedBy :
    (o n : ℕ) (g : Org)
    → IsOwnedBy o g
    → IsOwnedBy n (record g { members = Dict.put (Dict.put g.members o admin) n owner })
moved-IsOwnedBy o n g v = record {
  here = ground (arith, get-put (Dict.put g.members o admin) n n owner);
  only = λ k r h m. ground (
    arith,
    get-put (Dict.put g.members o admin) n k owner,
    get-put g.members o k admin,
    v.only k r,
  );
  offers = v.offers;
}

-- What a handler may do to the members.
pub data Effect (g g' : Org) : Type 0 where
  nothing : g' ≡ g → Effect g g'
  offered :
      (invs : List Invitation) (next : ℕ)
      → All (λ inv. is_owner inv.role ≡ false) invs
      → g' ≡ record g { invitations = invs; next_invitation_id = next }
      → Effect g g'
  assigned :
      (u : ℕ) (role : Role) (invs : List Invitation)
      → Dict.get g.members u ≢ some owner
      → is_owner role ≡ false
      → All (λ inv. is_owner inv.role ≡ false) invs
      → g' ≡ record g { members = Dict.put g.members u role; invitations = invs }
      → Effect g g'
  dropped :
      (u : ℕ)
      → Dict.get g.members u ≢ some owner
      → g' ≡ record g { members = Dict.remove g.members u }
      → Effect g g'
  moved :
      (o n : ℕ)
      → Dict.get g.members o ≡ some owner
      → g' ≡ record g { members = Dict.put (Dict.put g.members o admin) n owner }
      → Effect g g'

pub Effect-IsOwned : (g g' : Org) → IsOwned g → Effect g g' → IsOwned g'
Effect-IsOwned g g' (o, v) (nothing e) = rw e (o, v)
Effect-IsOwned g g' (o, v) (offered invs next h e) =
    rw e (o, record { here = v.here; only = v.only; offers = h })
Effect-IsOwned g g' (o, v) (assigned u role invs other plain offers e) =
    rw e (o, put-IsOwnedBy o u role g invs v other plain offers)
Effect-IsOwned g g' (o, v) (dropped u other e) = rw e (o, remove-IsOwnedBy o u g v other)
Effect-IsOwned g g' (o, v) (moved o' n h e) =
    let same : o' ≡ o = v.only o' owner h refl in rw (e, same) (n, moved-IsOwnedBy o n g v)
