-- ===== src/Baseline.antt =====
-- core/internal/baseline/baseline.go: the findings that a team has seen already. The encoder and the
-- decoder of JSON are arguments. sort.Slice leaves open in which order entries with one fingerprint come
-- out; here they keep theirs.
use sast_engine.Prelude.{
  ℕ, suc, String, ◌≡◌, refl, Bool, true, false, ◌||◌, Option, none, some, List, [], ◌∷◌, StrSet,
  contains, insert, contains-insert, same, same_self, if◌then◌else◌, arith, ap, ◌∙◌, length,
}
use Prim.Native.String.{compare}
use Prim.Native.Nat.{Ordering}

-- `Entry`, one recorded finding
pub record Finding : Type 0 where
  pub fingerprint : String
  pub cwe : String
  pub policy : String
  pub entry_point : String
  pub sink : String
  pub note : String

-- what the file holds
pub record Document : Type 0 where
  pub format : String
  pub entries : List Finding

pub record Baseline : Type 0 where
  pub document : Document
  pub known : StrSet

-- what `Read` answers
pub data ReadResult : Type 0 where
  accepted : Baseline → ReadResult
  not_decoded : ReadResult
  other_format : String → ReadResult
  no_fingerprint : ReadResult

abbrev pub current_format : String
current_format = "sast-baseline/v1"

-- the loop that fills `known`; `none` for an entry without a fingerprint
unfoldable pub known_from : List Finding → StrSet → Option StrSet
known_from [] known = some known
known_from (x ∷ xs) known =
    let rest = known_from xs (insert x.fingerprint known) in
    if same x.fingerprint "" then none else rest

unfoldable pub read : Option Document → ReadResult
read none = not_decoded
read (some d) = elim (same d.format current_format) [
  | false ↦ other_format d.format
  | true ↦ elim (known_from d.entries []) [
    | none ↦ no_fingerprint
    | some known ↦ accepted record { document = d; known = known }
  ]
]

-- `Known` and `Count`, where `none` is the nil baseline
unfoldable pub is_known : Option Baseline → String → Bool
is_known none fingerprint = false
is_known (some b) fingerprint = contains b.known fingerprint

unfoldable pub count_of : Option Baseline → ℕ
count_of none = 0
count_of (some b) = length b.document.entries

-- the order of `sort.Slice`, turned round
unfoldable pub is_after : Finding → Finding → Bool
is_after x y = elim (compare x.fingerprint y.fingerprint) [ Ordering.gt ↦ true | _ ↦ false ]

unfoldable pub insert_finding : Finding → List Finding → List Finding
insert_finding x [] = x ∷ []
insert_finding x (y ∷ ys) =
    let rest = insert_finding x ys in if is_after x y then y ∷ rest else x ∷ y ∷ ys

unfoldable pub sort_findings : List Finding → List Finding
sort_findings [] = []
sort_findings (x ∷ xs) = insert_finding x (sort_findings xs)

-- what `Write` encodes
unfoldable pub document_of : List Finding → Document
document_of entries = record { format = current_format; entries = sort_findings entries }

-- the fingerprints of some findings
unfoldable pub fingerprints : List Finding → List String
fingerprints [] = []
fingerprints (x ∷ xs) = x.fingerprint ∷ fingerprints xs

insert_finding-contains :
    (x : Finding) (ys : List Finding) (k : String)
    → contains (fingerprints (insert_finding x ys)) k ≡ contains (fingerprints (x ∷ ys)) k
unfolding insert_finding contains fingerprints
insert_finding-contains x [] k = refl
insert_finding-contains x (y ∷ ys) k = ground (arith, insert_finding-contains x ys k)

sort_findings-contains :
    (xs : List Finding) (k : String)
    → contains (fingerprints (sort_findings xs)) k ≡ contains (fingerprints xs) k
unfolding sort_findings contains fingerprints
sort_findings-contains [] k = refl
sort_findings-contains (x ∷ xs) k =
    ground (arith, insert_finding-contains x (sort_findings xs) k, sort_findings-contains xs k)

length-insert_finding :
    (x : Finding) (ys : List Finding) → length (insert_finding x ys) ≡ suc (length ys)
unfolding insert_finding
length-insert_finding x [] = refl
length-insert_finding x (y ∷ ys) = ground (arith, length-insert_finding x ys)

length-sort_findings : (xs : List Finding) → length (sort_findings xs) ≡ length xs
unfolding sort_findings
length-sort_findings [] = refl
length-sort_findings (x ∷ xs) =
    omega (arith, length-insert_finding x (sort_findings xs), length-sort_findings xs)

known_from_lem :
    (xs : List Finding) (known : StrSet)
    → contains (fingerprints xs) "" ≡ false
    → (r : StrSet) × (known_from xs known ≡ some r)
      × ((k : String) → contains r k ≡ (contains known k || contains (fingerprints xs) k))
unfolding known_from fingerprints contains
known_from_lem [] known n = (known, refl, λ k. ground arith)
known_from_lem (x ∷ xs) known n =
    let (r, e, c) = known_from_lem xs (insert x.fingerprint known) (ground (arith, n)) in
    let named : same x.fingerprint "" ≡ false = ground (arith, n) in
    (r, rw (named, known_from) e, λ k. ground (arith, c k, contains-insert x.fingerprint known k))

module _ {ℓ} {File : Type ℓ} (encode : Document → File) (decode : File → Option Document)
    (decode-encode : (d : Document) → decode (encode d) ≡ some d) where
  -- If each of the findings has a fingerprint, and the decoder reads what the encoder writes, then a
  -- baseline that is written is read back, knows exactly the fingerprints of the findings, and counts
  -- as many entries.
  pub read-written :
      (entries : List Finding)
      → contains (fingerprints entries) "" ≡ false
      → (b : Baseline) × (read (decode (encode (document_of entries))) ≡ accepted b)
        × ((k : String) → is_known (some b) k ≡ contains (fingerprints entries) k)
        × (count_of (some b) ≡ length entries)
  unfolding read document_of is_known count_of contains
  read-written entries n =
      let (r, e, c) =
        known_from_lem (sort_findings entries) [] (sort_findings-contains entries "" ∙ n) in
      (
        record { document = document_of entries; known = r },
        ap read (decode-encode (document_of entries)) ∙ rw (same_self current_format, e, read) refl,
        λ k. c k ∙ sort_findings-contains entries k,
        length-sort_findings entries,
      )
