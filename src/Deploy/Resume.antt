-- ===== src/Deploy/Resume.antt =====
-- The checks before a deployment is resumed, and the whole run: `verify_deployed_prefix` and `main`
-- of scripts_deploy_via_signer.py. The selector of a method, which is a hash, is an argument.
use base_arb_bot.Finalize.{Reply, required}
use base_arb_bot.Deploy.{
  Planned, DeploymentPlan, Prepared, Environment, Node, or_text, check_environment, system_exit,
  runtime_error, prepare_all, send_all, check_code,
}
use base_arb_bot.Prelude.{
  ℕ, zero, suc, ◌+◌, ◌-◌, ◌*◌, Bool, true, false, not, ◌&&◌, List, [], ◌∷◌, ◌++◌, length, take,
  drop, get_elem?, leb, ◌==◌, if◌then◌else◌, ok, err, ◌>>=◌, ◌>>◌, guard, Option, none, some,
}
use base_arb_bot.Prelude.Text.{Text, codes, text_eq, starts_with, lower, strip, is_empty}
use base_arb_bot.Prelude.Numeral.{int_16}
use base_arb_bot.Prelude.Int.{ℤ, pos, negsuc}
use base_arb_bot.Prelude.Dict.{get}

-- `int(text, 16)`, or its ValueError.
abbrev pub int_reply : Option ℤ → Reply ℤ
int_reply none = err (codes "ValueError")
int_reply (some n) = ok n

abbrev pub is_int : ℤ → ℕ → Bool
is_int (pos n) m = n == m
is_int (negsuc n) m = false

unfoldable pub remove_0x : Text → Text
remove_0x text = if starts_with text (codes "0x") then drop 2 text else text

-- `[suffix[i:i + 64] for i in range(0, 64 * count, 64)]`
unfoldable pub words : ℕ → Text → List Text
words zero suffix = []
words (suc count) suffix = take 64 suffix ∷ words count (drop 64 suffix)

unfoldable pub constructor_words : Planned → ℕ → Reply (List Text)
constructor_words t count =
    let calldata = remove_0x (t.calldata) in
    do
      guard (leb (count * 64) (length calldata)) runtime_error
      ok (words count (drop (length calldata - count * 64) calldata))

-- `list[i]`
abbrev pub at : {A : Type 0} → List A → ℕ → Reply A
at xs i = required (get_elem? xs i) (codes "IndexError")

-- The nonces and the purposes that a prefix must have.
unfoldable pub is_prefix : List Planned → List (ℕ × Text) → Bool
is_prefix [] [] = true
is_prefix [] (x ∷ xs) = false
is_prefix (t ∷ ts) [] = false
is_prefix (t ∷ ts) ((nonce, purpose) ∷ xs) =
    (t.nonce == nonce) && (text_eq (t.purpose) purpose && is_prefix ts xs)

abbrev pub same_bit : Bool → Bool → Bool
same_bit true b = b
same_bit false b = not b

module _ {W : Type 0} (node : Node W) (selector : Text → Text) (plan : DeploymentPlan) (w : W) where
  unfoldable pub address_word : Text → Text
  address_word address = codes "000000000000000000000000" ++ remove_0x (lower address)

  -- `call_word`: the lower-case word of 66 characters.
  unfoldable pub call_word : Text → Text → Reply Text
  call_word contract calldata = do
    result ← node.call_word contract calldata w
    guard (length result == 66) runtime_error
    ok (lower result)

  unfoldable pub call_address : Text → Text → Reply Text
  call_address contract signature = do
    word ← call_word contract (selector signature)
    node.checksum (codes "0x" ++ drop 26 word)

  abbrev pub as_bool : ℤ → Reply Bool
  as_bool (pos zero) = ok false
  as_bool (pos (suc zero)) = ok true
  as_bool (pos (suc (suc n))) = err runtime_error
  as_bool (negsuc n) = err runtime_error

  unfoldable pub call_bool : Text → Text → Text → Reply Bool
  call_bool contract signature argument = do
    word ← call_word contract (selector signature ++ argument)
    value ← int_reply (int_16 word)
    as_bool value

  unfoldable pub word_address : Text → Reply Text
  word_address word = do
    guard (length word == 64) runtime_error
    high ← int_reply (int_16 (take 24 word))
    guard (is_int high 0) runtime_error
    node.checksum (codes "0x" ++ drop 24 word)

  unfoldable pub predicted : Text → Reply Text
  predicted label = do
    address ← required (get label (plan.predicted_addresses)) (codes "KeyError")
    node.checksum address

  -- The three contracts, and the arguments that their constructors were given.
  pub record Contracts : Type 0 where
    pub executor : Text
    pub aerodrome : Text
    pub uniswap : Text

  pub record Arguments : Type 0 where
    pub pool : Text
    pub aero_executor : Text
    pub aero_router : Text
    pub aero_factory : Text
    pub uni_executor : Text
    pub uni_router : Text
    pub router02 : Bool

  unfoldable pub predicted_contracts : Reply Contracts
  predicted_contracts = do
    executor ← predicted (codes "executor")
    aerodrome ← predicted (codes "aerodrome_adapter")
    uniswap ← predicted (codes "uniswap_v3_adapter")
    ok record { executor = executor; aerodrome = aerodrome; uniswap = uniswap }

  unfoldable pub word_at : List Text → ℕ → Reply Text
  word_at xs i = do word ← at xs i; word_address word

  unfoldable pub planned_arguments : Reply Arguments
  planned_arguments = do
    first ← at (plan.transactions) 0
    second ← at (plan.transactions) 1
    third ← at (plan.transactions) 2
    pool_words ← constructor_words first 1
    pool ← word_at pool_words 0
    aero_words ← constructor_words second 3
    aero_executor ← word_at aero_words 0
    aero_router ← word_at aero_words 1
    aero_factory ← word_at aero_words 2
    uni_words ← constructor_words third 3
    uni_executor ← word_at uni_words 0
    uni_router ← word_at uni_words 1
    flag_word ← at uni_words 2
    flag ← int_reply (int_16 flag_word)
    router02 ← as_bool flag
    ok record {
      pool = pool;
      aero_executor = aero_executor;
      aero_router = aero_router;
      aero_factory = aero_factory;
      uni_executor = uni_executor;
      uni_router = uni_router;
      router02 = router02;
    }

  -- The getters with the addresses that they must return.
  abbrev pub expected_addresses : Contracts → Arguments → Text → List (Text × (Text × Text))
  expected_addresses c a deployer =
      (c.executor, (codes "owner()", deployer))
      ∷ (c.executor, (codes "POOL()", a.pool))
      ∷ (c.aerodrome, (codes "executor()", a.aero_executor))
      ∷ (c.aerodrome, (codes "router()", a.aero_router))
      ∷ (c.aerodrome, (codes "factory()", a.aero_factory))
      ∷ (c.uniswap, (codes "executor()", a.uni_executor))
      ∷ (c.uniswap, (codes "router()", a.uni_router))
      ∷ []

  unfoldable pub read_addresses : List (Text × (Text × Text)) → Reply (List (Text × Text))
  read_addresses [] = ok []
  read_addresses ((contract, (signature, expected)) ∷ getters) = do
    actual ← call_address contract signature
    rest ← read_addresses getters
    ok ((actual, expected) ∷ rest)

  unfoldable pub all_same : List (Text × Text) → Bool
  all_same [] = true
  all_same ((actual, expected) ∷ pairs) = text_eq (lower actual) (lower expected) && all_same pairs

  unfoldable pub check_contracts : Contracts → Arguments → Reply (Unit {0})
  check_contracts c a = do
    deployer ← node.checksum (plan.deployer)
    addresses ← read_addresses (expected_addresses c a deployer)
    guard (all_same addresses) runtime_error
    guard
        (text_eq (lower (a.aero_executor)) (lower (c.executor))
          && text_eq (lower (a.uni_executor)) (lower (c.executor)))
        runtime_error
    paused ← call_bool (c.executor) (codes "paused()") []
    guard paused runtime_error
    router02 ← call_bool (c.uniswap) (codes "router02()") []
    guard (same_bit router02 (a.router02)) runtime_error
    aero_allowed ←
        call_bool (c.executor) (codes "adapterAllowed(address)") (address_word (c.aerodrome))
    guard (not aero_allowed) runtime_error
    uni_allowed ←
        call_bool (c.executor) (codes "adapterAllowed(address)") (address_word (c.uniswap))
    guard (not uni_allowed) runtime_error
    ok tt

  abbrev pub expected_prefix : List (ℕ × Text)
  expected_prefix =
      (plan.starting_nonce, codes "deploy BaseArbExecutor (paused)")
      ∷ (plan.starting_nonce + 1, codes "deploy AerodromeAdapter")
      ∷ (plan.starting_nonce + 2, codes "deploy UniswapV3Adapter")
      ∷ []

  unfoldable pub verify_deployed_prefix : ℕ → Reply (Unit {0})
  verify_deployed_prefix resume_nonce = do
    guard (resume_nonce == plan.starting_nonce + 3) runtime_error
    guard (is_prefix (take 3 (plan.transactions)) expected_prefix) runtime_error
    contracts ← predicted_contracts
    check_code node plan w (
        (codes "executor", contracts.executor)
        ∷ (codes "aerodrome_adapter", contracts.aerodrome)
        ∷ (codes "uniswap_v3_adapter", contracts.uniswap)
        ∷ [])
    arguments ← planned_arguments
    check_contracts contracts arguments

  -- Where the deployment begins: at the plan's nonce, or at the one where it is resumed.
  unfoldable pub check_nonce : Option ℕ → ℕ → Reply (Unit {0})
  check_nonce none pending = do guard (pending == plan.starting_nonce) system_exit; ok tt
  check_nonce (some resume) pending = do
    guard (pending == resume) system_exit
    verify_deployed_prefix resume

-- What `main` prints: the prepared transactions, or the hashes of those that were sent.
pub data Report (W : Type 0) : Type 0 where
  dry_report : List Prepared → Report W
  sent_report : List Text → W → Report W

module _ {W : Type 0} (node : Node W) (selector : Text → Text) (env : Environment)
    (plan : DeploymentPlan) where
  -- The transactions are sent, and the result is checked.
  unfoldable pub send_plan : Text → List Prepared → W → Reply (Report W)
  send_plan deployer prepared w = do
    guard (not (is_empty (strip (or_text (env.token_file) [])))) system_exit
    node.read_token (strip (or_text (env.token_file) []))
    node.signer_url
    sent ← send_all node plan deployer prepared w
    check_code node plan (sent.1) (plan.predicted_addresses)
    executor ← required (get (codes "executor") (plan.predicted_addresses)) (codes "KeyError")
    word ← node.call_word executor (selector (codes "paused()")) (sent.1)
    paused ← int_reply (int_16 word)
    guard (is_int paused 1) runtime_error
    ok (sent_report (sent.0) (sent.1))

  abbrev pub report : Bool → Text → List Prepared → W → Reply (Report W)
  report false deployer prepared w = ok (dry_report prepared)
  report true deployer prepared w = send_plan deployer prepared w

  -- `main`, with the arguments `--resume-from-nonce` and `--broadcast`.
  unfoldable pub deploy : Option ℕ → Bool → W → Reply (Report W)
  deploy resume broadcast w = do
    check_environment env broadcast
    chain ← node.chain_id w
    guard (chain == plan.chain_id) system_exit
    guard (plan.chain_id == 8453) system_exit
    deployer ← node.checksum (plan.deployer)
    pending ← node.pending_nonce deployer w
    check_nonce node selector plan w resume pending
    priority ← node.priority_fee w
    base_fee ← node.pending_base_fee w
    prepared ←
        prepare_all node plan deployer pending (base_fee * 2 + priority) priority w
          (plan.transactions)
    report broadcast deployer prepared w
