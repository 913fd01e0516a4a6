-- ===== src/Signer/Plan.antt =====
-- The reviewed deployment plan: `ReviewedDeploymentPlan.load` of
-- signer-gateway/src/signer_gateway/policy.py, from the file's status and its parsed JSON.
use base_arb_bot.Signer.{
  Checked, Reviewed, ReviewedDeploymentPlan, reviewed_at, normalize_address, duplicate_nonce,
  plan_empty, plan_accessible, plan_not_owned,
}
use base_arb_bot.Prelude.{
  ℕ, ◌==◌, ◌%◌, ==_iff, Bool, true, false, List, [], ◌∷◌, ◌++◌, if◌then◌else◌, ok, err, ◌>>=◌, ◌>>◌,
  guard, Option, none, some, ◌≡◌, refl, sym, ◌∙◌, subst, All, bind-eq-ok, guard-eq-ok, ok-injective,
  ==_refl, append_nil, append_assoc,
}
use base_arb_bot.Prelude.Text.{Text, codes}

-- The file: its mode and owner, the digest of its bytes, and its fields.
pub record PlanFile : Type 0 where
  pub st_mode : ℕ
  pub st_uid : ℕ
  pub sha256 : Text
  pub deployer : Text
  pub chain_id : ℕ
  pub transactions : List Reviewed

abbrev pub unless_planned : {A : Type 0} → Option Reviewed → ℕ → Checked A → Checked A
unless_planned (some t) nonce continue = err (duplicate_nonce nonce)
unless_planned none nonce continue = continue

-- The loop over the transactions, with those before.
unfoldable pub load_from : List Reviewed → List Reviewed → Checked (List Reviewed)
load_from loaded [] = ok loaded
load_from loaded (t ∷ transactions) =
    unless_planned (reviewed_at (t.nonce) loaded) (t.nonce)
      (load_from (loaded ++ (t ∷ [])) transactions)

abbrev pub some_left : List Reviewed → Bool
some_left [] = false
some_left (t ∷ transactions) = true

-- `geteuid` is the gateway's user; `S_IMODE(mode) & 0o077` is the six lowest bits of the mode.
unfoldable pub load_plan : (Text → Option Text) → ℕ → PlanFile → Checked ReviewedDeploymentPlan
load_plan checksum geteuid file = do
  guard (file.st_mode % 64 == 0) plan_accessible
  guard (file.st_uid == geteuid) plan_not_owned
  transactions ← load_from [] (file.transactions)
  guard (some_left transactions) plan_empty
  deployer ← normalize_address checksum (file.deployer) (codes "deployment plan deployer")
  ok record {
    sha256 = file.sha256;
    deployer = deployer;
    chain_id = file.chain_id;
    transactions = transactions;
  }

-- Each transaction is the one that is found under its nonce.
abbrev pub FindsEach : List Reviewed → Type 0
FindsEach plan = All (λ (t : Reviewed). reviewed_at (t.nonce) plan ≡ some t) plan

found_later :
    (n : ℕ) (x : Reviewed) (plan more : List Reviewed)
    → reviewed_at n plan ≡ some x
    → reviewed_at n (plan ++ more) ≡ some x
unfolding reviewed_at
found_later n x [] more h = absurd cc
found_later n x (t ∷ plan) more h = by_test (t.nonce == n) h (λ h'. found_later n x plan more h')
  where
    by_test :
        (b : Bool)
        → (if b then some t else reviewed_at n plan) ≡ some x
        → (reviewed_at n plan ≡ some x → reviewed_at n (plan ++ more) ≡ some x)
        → (if b then some t else reviewed_at n (plan ++ more)) ≡ some x
    by_test true h' k = h'
    by_test false h' k = k h'

found_last :
    (t : Reviewed) (plan : List Reviewed)
    → reviewed_at (t.nonce) plan ≡ none
    → reviewed_at (t.nonce) (plan ++ (t ∷ [])) ≡ some t
unfolding reviewed_at
found_last t [] h = rw (==_refl (t.nonce)) refl
found_last t (x ∷ plan) h = by_test (x.nonce == t.nonce) h (λ h'. found_last t plan h')
  where
    by_test :
        (b : Bool)
        → (if b then some x else reviewed_at (t.nonce) plan) ≡ none
        → (reviewed_at (t.nonce) plan ≡ none → reviewed_at (t.nonce) (plan ++ (t ∷ [])) ≡ some t)
        → (if b then some x else reviewed_at (t.nonce) (plan ++ (t ∷ []))) ≡ some t
    by_test true h' k = absurd cc
    by_test false h' k = k h'

finds_later :
    (plan more xs : List Reviewed)
    → All (λ (x : Reviewed). reviewed_at (x.nonce) plan ≡ some x) xs
    → All (λ (x : Reviewed). reviewed_at (x.nonce) (plan ++ more) ≡ some x) xs
finds_later plan more [] h = tt
finds_later plan more (x ∷ xs) h =
    (found_later (x.nonce) x plan more h.0, finds_later plan more xs h.1)

All-snoc :
    (P : Reviewed → Type 0) (plan : List Reviewed) (t : Reviewed)
    → All P plan
    → P t
    → All P (plan ++ (t ∷ []))
All-snoc P [] t h p = (p, tt)
All-snoc P (x ∷ plan) t h p = (h.0, All-snoc P plan t h.1 p)

load_from-FindsEach :
    (transactions loaded r : List Reviewed)
    → FindsEach loaded
    → load_from loaded transactions ≡ ok r
    → (r ≡ loaded ++ transactions) × FindsEach r
unfolding load_from
load_from-FindsEach [] loaded r h e =
    (sym (ok-injective e) ∙ sym (append_nil loaded), subst FindsEach (ok-injective e) h)
load_from-FindsEach (t ∷ transactions) loaded r h e =
    by_found (reviewed_at (t.nonce) loaded) refl e
      (load_from-FindsEach transactions (loaded ++ (t ∷ [])) r)
  where
    by_found :
        (o : Option Reviewed)
        → reviewed_at (t.nonce) loaded ≡ o
        → unless_planned o (t.nonce) (load_from (loaded ++ (t ∷ [])) transactions) ≡ ok r
        → (FindsEach (loaded ++ (t ∷ []))
            → load_from (loaded ++ (t ∷ [])) transactions ≡ ok r
            → (r ≡ (loaded ++ (t ∷ [])) ++ transactions) × FindsEach r)
        → (r ≡ loaded ++ (t ∷ transactions)) × FindsEach r
    by_found (some x) q e' k = absurd cc
    by_found none q e' k =
        let finds =
          All-snoc _ loaded t (finds_later loaded (t ∷ []) loaded h) (found_last t loaded q) in
        let (same, each) = k finds e' in (same ∙ append_assoc loaded (t ∷ []) transactions, each)

-- A plan that was loaded.
pub record IsLoaded (checksum : Text → Option Text) (geteuid : ℕ) (file : PlanFile)
    (plan : ReviewedDeploymentPlan) : Type 0 where
  pub private_file : file.st_mode % 64 ≡ 0
  pub owned_file : file.st_uid ≡ geteuid
  pub digest : plan.sha256 ≡ file.sha256
  pub deployer :
      normalize_address checksum (file.deployer) (codes "deployment plan deployer")
      ≡ ok (plan.deployer)
  pub chain : plan.chain_id ≡ file.chain_id
  pub transactions : plan.transactions ≡ file.transactions
  pub not_empty : some_left (plan.transactions) ≡ true
  pub finds : FindsEach (plan.transactions)

-- If a plan is loaded, then its file is the gateway user's own and grants nothing to its group or to others; the plan
-- has the digest, the chain, the normalized deployer and the transactions of the file, at least
-- one; and each transaction is the one that is found under its nonce.
pub load_plan-IsLoaded :
    (checksum : Text → Option Text) (geteuid : ℕ) (file : PlanFile) (plan : ReviewedDeploymentPlan)
    → load_plan checksum geteuid file ≡ ok plan
    → IsLoaded checksum geteuid file plan
unfolding load_plan
load_plan-IsLoaded checksum geteuid file plan e =
    let (p, e1) = guard-eq-ok (file.st_mode % 64 == 0) _ _ e in
    let (o, e2) = guard-eq-ok (file.st_uid == geteuid) _ _ e1 in
    let (ts, q, e3) = bind-eq-ok (load_from [] (file.transactions)) _ e2 in
    let (some_t, e4) = guard-eq-ok (some_left ts) _ _ e3 in
    let (deployer, d, e5) =
      bind-eq-ok (normalize_address checksum (file.deployer) (codes "deployment plan deployer")) _
        e4 in
    let (same, each) = load_from-FindsEach (file.transactions) [] ts tt q in
    subst (IsLoaded checksum geteuid file) (ok-injective e5) (record {
      private_file = (==_iff (file.st_mode % 64) 0).0 p;
      owned_file = (==_iff (file.st_uid) geteuid).0 o;
      digest = refl;
      deployer = d;
      chain = refl;
      transactions = same;
      not_empty = some_t;
      finds = each;
    })
