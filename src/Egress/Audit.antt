-- ===== src/Egress/Audit.antt =====
-- When a run may go on, and what its audit lists.
use tortureu.Base.{
  String, ◌≡◌, refl, [], ◌∷◌, arith, eq_iff, Dict, lookup, none, some, ◌⊎◌, inl, inr, true, false,
  Bool, if◌then◌else◌, ◌==◌, not, ◌||◌, ◌∙◌,
}
use tortureu.Verdict.{EgressAudit}
use tortureu.Egress.{
  Class, class_internal, class_mock, class_real, class_block, class_unclassified, is_known_class,
  unclassified_hosts, check_unclassified, audit, Bucket, bucket_of, append_to,
}

abbrev pub IsSafeClass : Class → Type 0
IsSafeClass c = (c ≡ class_internal) ⊎ (c ≡ class_mock) ⊎ (c ≡ class_real) ⊎ (c ≡ class_block)

check_unclassified-none :
    (classes : Dict Class) → check_unclassified classes ≡ none → unclassified_hosts classes ≡ []
unfolding check_unclassified
check_unclassified-none classes h = ground arith

abbrev is_unclassified : Bucket → Bool
is_unclassified Bucket.unclassified = true
is_unclassified _ = false

unclassified-append_to :
    (b : Bucket) (host : String) (a : EgressAudit)
    → (append_to b host a).unclassified
      ≡ (if is_unclassified b then host ∷ a.unclassified else a.unclassified)
unfolding append_to
unclassified-append_to Bucket.unclassified host a = refl
unclassified-append_to _ host a = refl

-- A class is one of the five known ones, or fails every test.
Class-cases :
    (c : Class)
    → (c ≡ class_mock)
      ⊎ (c ≡ class_block)
      ⊎ (c ≡ class_real)
      ⊎ (c ≡ class_unclassified)
      ⊎ (c ≡ class_internal)
      ⊎ ((c == class_mock ≡ false)
          × (c == class_block ≡ false)
          × (c == class_real ≡ false)
          × (c == class_unclassified ≡ false)
          × (c == class_internal ≡ false))
Class-cases c = ground (
  arith,
  eq_iff c class_mock,
  eq_iff c class_block,
  eq_iff c class_real,
  eq_iff c class_unclassified,
  eq_iff c class_internal,
)

is_unclassified-bucket_of :
    (c : Class)
    → is_unclassified (bucket_of c) ≡ (c == class_unclassified || not (is_known_class c))
unfolding bucket_of is_known_class
is_unclassified-bucket_of c = elim (Class-cases c) [
  | inl e ↦ rw e
  | inr (inl e) ↦ rw e
  | inr (inr (inl e)) ↦ rw e
  | inr (inr (inr (inl e))) ↦ rw e
  | inr (inr (inr (inr (inl e)))) ↦ rw e
  | inr (inr (inr (inr (inr (m, b, r, u, i))))) ↦ rw (m, b, r, u, i)
]

-- the audit and the abort find the same hosts
unclassified-audit :
    (classes : Dict Class) → (audit classes).unclassified ≡ unclassified_hosts classes
unfolding audit unclassified_hosts
unclassified-audit [] = refl
unclassified-audit ((host, class) ∷ rest) =
    rw (unclassified-append_to, is_unclassified-bucket_of, unclassified-audit rest)

safe_of_none :
    (h : String) (c : Class) (classes : Dict Class)
    → unclassified_hosts classes ≡ []
    → lookup h classes ≡ some c
    → IsSafeClass c
unfolding unclassified_hosts
safe_of_none h c [] n e = cc
safe_of_none h c ((k, class) ∷ rest) n e = ground (
  arith,
  safe_of_none h c rest,
  eq_iff class class_mock,
  eq_iff class class_block,
  eq_iff class class_real,
  eq_iff class class_unclassified,
  eq_iff class class_internal,
)

-- Where the classification passes the check, every host of it has one of the classes internal, mock,
-- real and block, and the audit's list of unclassified hosts is empty.
pub check_unclassified_sound :
    (classes : Dict Class)
    → check_unclassified classes ≡ none
    → ((h : String) (c : Class) → lookup h classes ≡ some c → IsSafeClass c)
      × ((audit classes).unclassified ≡ [])
check_unclassified_sound classes n =
    let e = check_unclassified-none classes n in
    ((λ h c. safe_of_none h c classes e), unclassified-audit classes ∙ e)
