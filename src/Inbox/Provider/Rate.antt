-- ===== src/Inbox/Provider/Rate.antt =====
-- The rate limit of mini-inbox/provider.py.
use qwen_3_8_evals.Prelude.{
  ℕ, ◌+◌, ◌≤◌, String, ◌≡◌, refl, Bool, true, false, Option, none, some, List, [], ◌∷◌, ◌++◌, arith,
  if◌then◌else◌, leb, length, length-append, count, select, All,
}
use qwen_3_8_evals.Inbox.Provider.{
  Reply, too_many, unknown, subscription, Provider, is_recent, found_account, lookup_account, admit,
  get_subscription, account_of, Account, Truth,
}

pub record Request : Type 0 where
  pub account_id : Option String
  pub now : ℕ

abbrev pub is_granted : Reply → Bool
is_granted too_many = false
is_granted unknown = true
is_granted (subscription _ _) = true

module _ (rate_limit minute : ℕ) where
  -- The times of the requests that were let through.
  unfoldable pub granted : List Request → Provider → List ℕ
  granted [] p = []
  granted (r ∷ rest) p =
      let (reply, q) = get_subscription rate_limit minute r.account_id r.now p in
      let more = granted rest q in if is_granted reply then r.now ∷ more else more

count-append : (p : ℕ → Bool) (xs ys : List ℕ) → count p (xs ++ ys) ≡ count p xs + count p ys
unfolding count
count-append p [] ys = omega arith
count-append p (x ∷ xs) ys = ground (arith, count-append p xs ys)

-- What is recent later is recent now.
count-recent :
    (minute now later : ℕ) (xs : List ℕ)
    → now ≤ later
    → count (is_recent minute later) (select (is_recent minute now) xs)
      ≡ count (is_recent minute later) xs
unfolding count select
count-recent minute now later [] h = refl
count-recent minute now later (x ∷ xs) h = ground (arith, count-recent minute now later xs h)

count-length : (p : ℕ → Bool) (xs : List ℕ) → count p xs ≤ length xs
unfolding count
count-length p [] = omega arith
count-length p (x ∷ xs) = ground (arith, count-length p xs)

length-select : (p : ℕ → Bool) (xs : List ℕ) → length (select p xs) ≤ length xs
unfolding select
length-select p [] = omega arith
length-select p (x ∷ xs) = ground (arith, length-select p xs)

lookup_account-is_granted :
    (id : Option String) (truth : Truth) → is_granted (lookup_account id truth) ≡ true
lookup_account-is_granted none truth = refl
lookup_account-is_granted (some id) truth = found (account_of id truth)
  where
    found : (a : Option Account) → is_granted (found_account id a) ≡ true
    found none = refl
    found (some a) = refl

module _ (rate_limit minute now : ℕ) where
  -- The recent requests in the window, and those that will be let through.
  abbrev budget : List Request → Provider → ℕ
  budget rs p =
      count (is_recent minute now) p.rate_window
      + count (is_recent minute now) (granted rate_limit minute rs p)

  -- What a request adds to those that are let through, by whether the window was full.
  abbrev after : Bool → List ℕ → Request → List Request → Provider → List ℕ
  after full w r rs p =
      let (reply, q) = admit full w r.account_id r.now p in
      let more = granted rate_limit minute rs q in if is_granted reply then r.now ∷ more else more

  admit_bound :
      (full : Bool) (r : Request) (rs : List Request) (p : Provider)
      → r.now ≤ now
      → length p.rate_window ≤ rate_limit
      → let w = select (is_recent minute r.now) p.rate_window in
        leb rate_limit (length w) ≡ full
        → ((q : Provider) → length q.rate_window ≤ rate_limit → budget rs q ≤ rate_limit)
        → count (is_recent minute now) p.rate_window
            + count (is_recent minute now) (after full w r rs p)
          ≤ rate_limit
  unfolding count
  admit_bound true r rs p a h e ih =
      let w = select (is_recent minute r.now) p.rate_window in
      let q = (admit true w r.account_id r.now p).1 in
      let small = length-select (is_recent minute r.now) p.rate_window in
      omega (arith, ih q (omega (arith, small, h)), count-recent minute r.now now p.rate_window a)
  admit_bound false r rs p a h e ih =
      let w = select (is_recent minute r.now) p.rate_window in
      let q = (admit false w r.account_id r.now p).1 in
      let grown = length-append w (r.now ∷ []) in
      ground (
        arith,
        ih q (ground (arith, grown, e)),
        count-recent minute r.now now p.rate_window a,
        count-append (is_recent minute now) w (r.now ∷ []),
        lookup_account-is_granted r.account_id p.truth,
      )

  window_bound :
      (rs : List Request) (p : Provider)
      → All (λ r. r.now ≤ now) rs
      → length p.rate_window ≤ rate_limit
      → budget rs p ≤ rate_limit
  unfolding granted get_subscription count
  window_bound [] p a h = omega (arith, count-length (is_recent minute now) p.rate_window, h)
  window_bound (r ∷ rs) p a h =
      admit_bound (leb rate_limit (length (select (is_recent minute r.now) p.rate_window))) r rs p
        a.0 h refl (λ q k. window_bound rs q a.1 k)

-- Whatever the requests for subscriptions before a time, and in whatever order their times are, at
-- most RATE_LIMIT of those in the 60 seconds before it are answered otherwise than by a 429.
pub rate_limited :
    (rate_limit minute now : ℕ) (rs : List Request) (p : Provider)
    → p.rate_window ≡ []
    → All (λ r. r.now ≤ now) rs
    → count (is_recent minute now) (granted rate_limit minute rs p) ≤ rate_limit
rate_limited rate_limit minute now rs p e a =
    omega (arith, window_bound rate_limit minute now rs p a (rw e (omega arith)))
