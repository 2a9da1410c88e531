-- ===== src/Tests/Store.antt =====
-- The theorems on transcripts, trust and QR codes (store.go, identity.go, qr.go) at
-- concrete inputs.
use lanrunner.Common.{
  length, ◌++◌, ltb, ◌&&◌, if◌then◌else◌, arith, ◌+◌, ◌≡◌, refl, true, false, List, [], ◌∷◌, some,
  map, Text, codes, same,
}
use lanrunner.Common.Dict.{lookup}
use lanrunner.History.{HistEntry, load, safe_name}
use lanrunner.History.Transcript.{Event, run, says, receipt, clear}
use lanrunner.History.Shown.{said, receipts_for, load-run}
use lanrunner.Qr.Encode.{choose_version}
use lanrunner.Qr.Place.Unmask.{Reads, apply_mask-place_data}
use lanrunner.Qr.Patterns.{function_patterns}
use lanrunner.Qr.Place.{place_data, build_matrix}
use lanrunner.Qr.Place.Best.{Chosen, build_matrix-Chosen}
use lanrunner.Qr.Versions.{qr_versions}
use lanrunner.Qr.Encode.Smallest.{Smallest, choose_version-Smallest}
use lanrunner.Trust.{TrustRecord, TrustStore, observe}
use lanrunner.Trust.Pins.{TrustEvent, observes, verifies, trust_run, trust_run-pinned}
use lanrunner.Trust.Verdict.{verdict, observe-verdict}

abbrev alice : TrustRecord
alice = record {
  fp = codes "aa";
  nick = codes "Alice";
  first_seen = 1;
  last_seen = 1;
  verified = false;
  sightings = 1;
}

abbrev pinned : TrustStore
pinned = record { recs = (codes "aa", alice) ∷ []; saved = alice ∷ [] }

abbrev sightings : List TrustEvent
sightings =
    observes (codes "bb") (codes "Alice") 2
    ∷ verifies (codes "aa") true
    ∷ observes (codes "aa") (codes "Ally") 3
    ∷ []

trust_run-pinned_example :
    (r' : TrustRecord) × (lookup (codes "aa") (trust_run same pinned sightings).recs ≡ some r')
    × (r'.first_seen ≡ 1)
    × (r'.verified ≡ true)
    × (r'.sightings ≡ 1 + 0 + 1)
unfolding lookup same
trust_run-pinned_example = trust_run-pinned same pinned (codes "aa") sightings alice refl

observe-verdict_example :
    (observe same pinned (codes "bb") (codes "Alice") 2).1.status
    ≡ verdict same (codes "bb") pinned.recs (lookup (codes "bb") pinned.recs) (codes "Alice")
unfolding same
observe-verdict_example = observe-verdict same pinned (codes "bb") (codes "Alice") 2 (refl, tt)

abbrev line : Text → Text → HistEntry
line mid body = record {
  kind = [];
  ts = 1;
  conv = codes "room";
  fp = codes "aa";
  nick = codes "Alice";
  self = false;
  body = body;
  mid = mid;
  delivered = 0;
}

abbrev chat : List Event
chat =
    says (line (codes "1") (codes "old"))
    ∷ clear (codes "room")
    ∷ says (line (codes "2") (codes "hi"))
    ∷ receipt (codes "room") (codes "2") 5
    ∷ []

load-run_example :
    (older shown : List HistEntry) × (said (safe_name (codes "room")) [] chat ≡ older ++ shown)
    × (length shown ≡ (
        if ltb 0 1 && ltb 1 (length (said (safe_name (codes "room")) [] chat))
        then 1
        else length (said (safe_name (codes "room")) [] chat)))
    × (load (run [] chat) (codes "room") 1
        ≡ map
            (λ (e : HistEntry). record e {
              delivered = receipts_for (safe_name (codes "room")) e.mid 0 chat;
            })
            shown)
load-run_example = load-run chat (codes "room") 1

choose_version-Smallest_example : Smallest 60 1 11 (choose_version 60)
choose_version-Smallest_example = choose_version-Smallest 60

apply_mask-place_data_example :
    Reads
      (place_data (function_patterns 1 (qr_versions 1) 21) (32 ∷ 1 ∷ []) 21)
      (function_patterns 1 (qr_versions 1) 21).reserved
      3
      21
      10
      12
apply_mask-place_data_example =
    apply_mask-place_data 1 (qr_versions 1) (32 ∷ 1 ∷ []) 3 21 10 12 (omega arith) (omega arith)

build_matrix-Chosen_example :
    Chosen
      (place_data (function_patterns 1 (qr_versions 1) 21) (32 ∷ 1 ∷ []) 21)
      (function_patterns 1 (qr_versions 1) 21).reserved
      21
      8
      (build_matrix 1 (qr_versions 1) (32 ∷ 1 ∷ []))
build_matrix-Chosen_example = build_matrix-Chosen 1 (qr_versions 1) (32 ∷ 1 ∷ [])
