-- ===== src/Assembly/Claims.antt =====
-- pipeline/pipeline.go: rules for what the configure methods do to the aliases.
use neptunus.Base.{
  String, ◌≡◌, refl, Bool-cases, true, false, List, [], ◌∷◌, ◌++◌, Result, ok, err, inl, inr, arith,
  joined, contains, Distinct, contains-append, Distinct-append, string_comparable, ==_iff,
}
use neptunus.Core.Fields.{Error}
use neptunus.Assembly.{Aliases, Conf, pass, lifted, ◌>>=◌, nested, claim, failed}

-- From the aliases `a` to the aliases `b`: none is given up, and the names of `news`, all different,
-- are among those that have been taken in between.
pub record Extends (a b news : Aliases) : Type 0 where
  pub grows : (k : String) → contains a k ≡ true → contains b k ≡ true
  pub fresh : (k : String) → contains news k ≡ true → contains a k ≡ false
  pub claimed : (k : String) → contains news k ≡ true → contains b k ≡ true
  pub distinct : Distinct news

pub Extends-refl : (a : Aliases) → Extends a a []
unfolding contains
Extends-refl a = record { grows = λ k h. h; fresh = λ k h. cc; claimed = λ k h. cc; distinct = tt }

pub Extends-trans :
    {a b c : Aliases} (xs ys : Aliases) → Extends a b xs → Extends b c ys → Extends a c (xs ++ ys)
Extends-trans {a} {b} {c} xs ys e f = record {
  grows = λ k h. f.grows k (e.grows k h);
  fresh = λ k h. ground (arith, contains-append xs ys k, e.fresh k, e.grows k, f.fresh k);
  claimed = λ k h. ground (arith, contains-append xs ys k, e.claimed k, f.grows k, f.claimed k);
  distinct =
      Distinct-append xs ys e.distinct f.distinct λ k h. ground (arith, e.claimed k, f.fresh k h);
}

-- What holds of the result, if there is one.
abbrev pub Returns : {A : Type 0} → (A → Type 0) → Result Error A → Type 0
Returns P (ok a) = P a
Returns P (err e) = Unit {0}

-- From any aliases at which `pre` has been claimed, the computation ends with the names of its
-- result claimed.
pub record Claims {A : Type 0} (pre : Aliases) (names : A → Aliases) (m : Conf A) : Type 0 where
  pub runs : (a s : Aliases) → Extends a s pre → Returns (λ r. Extends a r.1 (names r.0)) (m s)

module _ {A : Type 0} where
  pub Claims-pass :
      (pre : Aliases) (names : A → Aliases) (x : A) → pre ≡ names x → Claims pre names (pass x)
  unfolding pass
  Claims-pass pre names x e = record { runs = λ a s h. rw (← e) h }

  -- The names that are claimed are all different.
  pub Claims-pass-Distinct :
      (pre : Aliases) (names : A → Aliases) (x : A)
      → (Distinct pre → pre ≡ names x)
      → Claims pre names (pass x)
  unfolding pass
  Claims-pass-Distinct pre names x e = record { runs = λ a s h. rw (← e h.distinct) h }

  pub Claims-failed :
      (pre : Aliases) (names : A → Aliases) (text : List String) → Claims pre names (failed text)
  unfolding failed
  Claims-failed pre names text = record { runs = λ a s h. tt }

  pub Claims-nested :
      (pre : Aliases) (names : A → Aliases) (words : List String) (m : Conf A)
      → Claims pre names m
      → Claims pre names (nested words m)
  unfolding nested
  Claims-nested pre names words m hm = record { runs = λ a s e. go a (m s) (hm.runs a s e) }
    where
      go :
          (a : Aliases) (r : Result Error (A × Aliases))
          → Returns (λ r. Extends a r.1 (names r.0)) r
          → Returns
              (λ r. Extends a r.1 (names r.0))
              (elim r [ ok r ↦ ok r | err e ↦ err (joined (words ++ e ∷ [])) ])
      go a (ok r) h = h
      go a (err x) h = tt

  -- A computation that claims names of its own, behind any others.
  pub Claims-frame :
      (pre : Aliases) (names : A → Aliases) (m : Conf A)
      → Claims [] names m
      → Claims pre (λ x. pre ++ names x) m
  Claims-frame pre names m hm = record {
    runs = λ a s e. go a s e (m s) (hm.runs s s (Extends-refl s));
  }
    where
      go :
          (a s : Aliases)
          → Extends a s pre
          → (r : Result Error (A × Aliases)) → Returns (λ r. Extends s r.1 (names r.0)) r
          → Returns (λ r. Extends a r.1 (pre ++ names r.0)) r
      go a s e (ok r) h = Extends-trans pre (names r.0) e h
      go a s e (err x) h = tt

  -- A computation whose own names are not of interest.
  pub Claims-hidden :
      (pre : Aliases) (names : A → Aliases) (m : Conf A)
      → Claims [] names m
      → Claims pre (λ x. pre) m
  unfolding contains
  Claims-hidden pre names m hm = record {
    runs = λ a s e. go a s e (m s) (hm.runs s s (Extends-refl s));
  }
    where
      go :
          (a s : Aliases)
          → Extends a s pre
          → (r : Result Error (A × Aliases)) → Returns (λ r. Extends s r.1 (names r.0)) r
          → Returns (λ r. Extends a r.1 pre) r
      go a s e (ok r) h = record {
        grows = λ k q. h.grows k (e.grows k q);
        fresh = e.fresh;
        claimed = λ k q. h.grows k (e.claimed k q);
        distinct = e.distinct;
      }
      go a s e (err x) h = tt

module _ {A B : Type 0} where
  pub Claims-lifted :
      (pre : Aliases) (names : B → Aliases) (m : Result Error A) (f : A → Conf B)
      → ((x : A) → Claims pre names (f x))
      → Claims pre names (lifted m >>= f)
  unfolding lifted ◌>>=◌
  Claims-lifted pre names (ok x) f h = record { runs = λ a s e. (h x).runs a s e }
  Claims-lifted pre names (err x) f h = record { runs = λ a s e. tt }

  pub Claims-bind :
      (pre : Aliases) (mid : A → Aliases) (names : B → Aliases) (m : Conf A) (f : A → Conf B)
      → Claims pre mid m
      → ((x : A) → Claims (mid x) names (f x))
      → Claims pre names (m >>= f)
  unfolding ◌>>=◌
  Claims-bind pre mid names m f hm hf = record { runs = λ a s e. go a (m s) (hm.runs a s e) }
    where
      go :
          (a : Aliases) (r : Result Error (A × Aliases))
          → Returns (λ r. Extends a r.1 (mid r.0)) r
          → Returns (λ r. Extends a r.1 (names r.0)) (elim r [ err e ↦ err e | ok r ↦ f r.0 r.1 ])
      go a (ok r) h = (hf r.0).runs a r.1 h
      go a (err x) h = tt

pub Claims-claim :
    (pre : Aliases) (alias : String) (source : List String)
    → Claims pre (λ x. pre ++ alias ∷ []) (claim alias source)
unfolding contains claim
Claims-claim pre alias source = record { runs = go }
  where
    go :
        (a s : Aliases)
        → Extends a s pre
        → Returns (λ r. Extends a r.1 (pre ++ alias ∷ [])) (claim alias source s)
    go a s e = elim (Bool-cases (contains s alias)) [
      | inl taken ↦ rw taken tt
      | inr free ↦ rw free (
          Extends-trans pre (alias ∷ []) e (record {
            grows = λ k h. ground arith;
            fresh = λ k h. ground (arith, ==_iff alias k);
            claimed = λ k h. ground arith;
            distinct = (refl, tt);
          }))
    ]
