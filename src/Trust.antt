-- ===== src/Trust.antt =====
-- The trust store (identity.go, `TrustRecord`, `TrustStore`, `Observe`). `time.Now` is an argument.
-- `strings.EqualFold` is a parameter of the functions that call it. `saved` is the file's content,
-- before it is sorted.
pub mod Verdict
pub mod Pins
use lanrunner.Common.{
  ℕ, suc, ◌+◌, Bool, true, false, List, [], ◌∷◌, Option, none, some, not, ◌&&◌, if◌then◌else◌, Text,
  same, length, map,
}
use lanrunner.Common.Dict.{Dict, lookup, insert}

pub record TrustRecord : Type 0 where
  pub fp : Text
  pub nick : Text
  pub first_seen : ℕ
  pub last_seen : ℕ
  pub verified : Bool
  pub sightings : ℕ

pub record TrustStore : Type 0 where
  pub recs : Dict TrustRecord
  pub saved : List TrustRecord

-- The four verdicts of `Observation.Status`.
pub data Status : Type 0 where
  new known renamed impersonation : Status

pub record Observation : Type 0 where
  pub status : Status
  pub prev_nick : Text
  pub other_fp : Text
  pub verified : Bool

values : Dict TrustRecord → List TrustRecord
values [] = []
values ((fp, r) ∷ recs) = r ∷ values recs

save : TrustStore → TrustStore
unfolding values
save t = record t { saved = values t.recs }

load_recs : List TrustRecord → Dict TrustRecord → Dict TrustRecord
load_recs [] recs = recs
load_recs (r ∷ list) recs = load_recs list (if same r.fp [] then recs else insert r.fp r recs)

pub load_trust_store : List TrustRecord → TrustStore
unfolding load_recs
load_trust_store list = record { recs = load_recs list []; saved = list }

module _ (equal_fold : Text → Text → Bool) where
  -- The last other fingerprint, in the order of the walk, that holds the name; "" if none does.
  pub other_owner : Text → Text → Text → Dict TrustRecord → Text
  other_owner fp nick other [] = other
  other_owner fp nick other ((f, r) ∷ recs) =
      other_owner fp nick (if not (same f fp) && equal_fold r.nick nick then f else other) recs

  first_sight : TrustStore → Text → Text → Text → ℕ → TrustStore × Observation
  first_sight t fp nick other now = (
    save (record t {
      recs =
          insert fp
            (record {
              fp = fp;
              nick = nick;
              first_seen = now;
              last_seen = now;
              verified = false;
              sightings = 1;
            })
            t.recs;
    }),
    record {
      status = if same other [] then new else impersonation;
      prev_nick = [];
      other_fp = other;
      verified = false;
    },
  )

  seen_again : TrustStore → Text → Text → Text → ℕ → TrustRecord → TrustStore × Observation
  seen_again t fp nick other now r = (
    save (record t {
      recs =
          insert fp
            (record r {
              nick = if equal_fold r.nick nick then r.nick else nick;
              last_seen = now;
              sightings = suc r.sightings;
            })
            t.recs;
    }),
    record {
      status =
          if not (same other [])
          then impersonation
          else if equal_fold r.nick nick
          then known
          else renamed;
      prev_nick = r.nick;
      other_fp = other;
      verified = r.verified;
    },
  )

  sight : TrustStore → Text → Text → Text → ℕ → Option TrustRecord → TrustStore × Observation
  sight t fp nick other now none = first_sight t fp nick other now
  sight t fp nick other now (some r) = seen_again t fp nick other now r

  pub observe : TrustStore → Text → Text → ℕ → TrustStore × Observation
  observe t fp nick now = sight t fp nick (other_owner fp nick [] t.recs) now (lookup fp t.recs)

set_verified_of : TrustStore → Text → Bool → Option TrustRecord → TrustStore × Bool
unfolding save
set_verified_of t fp v none = (t, false)
set_verified_of t fp v (some r) =
    (save (record t { recs = insert fp (record r { verified = v }) t.recs }), true)

pub set_verified : TrustStore → Text → Bool → TrustStore × Bool
unfolding set_verified_of
set_verified t fp v = set_verified_of t fp v (lookup fp t.recs)

pub is_verified : TrustStore → Text → Bool
is_verified t fp = elim (lookup fp t.recs) [ none ↦ false | some r ↦ r.verified ]

pub count : TrustStore → ℕ
count t = length t.recs
