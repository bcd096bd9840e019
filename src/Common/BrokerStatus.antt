-- ===== src/Common/BrokerStatus.antt =====
-- apps/api/src/common/broker-status.util.ts: the one mapping of the broker's status strings to the
-- platform's vocabulary.
use text.Mathlib.Text.{◌==◌ as str_eq}
use text.Mathlib.TextEquality.{eq_iff}
use open_neotrader.Base.{
  String, ◌≡◌, ◌⊎◌, inl, inr, Bool, true, false, List, [], ◌∷◌, if◌then◌else◌, some_of, Bool-cases,
}

-- `CanonicalRealOrderStatus`
pub data Canonical : Type 0 where
  accepted partially_filled filled canceled rejected expired : Canonical

pub Canonical-discrete : Discrete Canonical
Canonical-discrete = hlevel

-- The case labels of the `switch` that share a result.
abbrev pub accepted_labels : List String
accepted_labels =
    "new" ∷ "pending_new" ∷ "accepted" ∷ "accepted_for_bidding" ∷ "pending_replace" ∷ "replaced"
    ∷ "held" ∷ "suspended" ∷ []

abbrev pub is_one_of : String → List String → Bool
is_one_of raw labels = some_of (str_eq raw) labels

-- `normalizeBrokerStatus`; what no label matches is accepted too
unfoldable pub normalize_broker_status : String → Canonical
normalize_broker_status raw =
    if is_one_of raw accepted_labels
    then accepted
    else if str_eq raw "partially_filled"
    then partially_filled
    else if str_eq raw "filled"
    then filled
    else if is_one_of raw ("canceled" ∷ "pending_cancel" ∷ [])
    then canceled
    else if str_eq raw "rejected"
    then rejected
    else if is_one_of raw ("expired" ∷ "done_for_day" ∷ [])
    then expired
    else accepted

-- `TERMINAL_STATUSES.includes(status)`, which is also `isTerminalStatus`
unfoldable pub is_terminal_status : Canonical → Bool
is_terminal_status filled = true
is_terminal_status canceled = true
is_terminal_status rejected = true
is_terminal_status expired = true
is_terminal_status accepted = false
is_terminal_status partially_filled = false

abbrev pub terminal_labels : List String
terminal_labels =
    "filled" ∷ "canceled" ∷ "pending_cancel" ∷ "rejected" ∷ "expired" ∷ "done_for_day" ∷ []

-- To split on whether a text is a given label.
label_cases : (raw label : String) → (raw ≡ label) ⊎ (str_eq raw label ≡ false)
label_cases raw label = elim (Bool-cases (str_eq raw label)) [
  | inl e ↦ inl ((eq_iff raw label).0 e)
  | inr e ↦ inr e
]

-- An order is taken for finished on exactly the six strings that say so: any other string, known or
-- not, leaves it open to the next poll.
pub normalize-is_terminal :
    (raw : String)
    → is_terminal_status (normalize_broker_status raw) ≡ is_one_of raw terminal_labels
unfolding normalize_broker_status is_terminal_status
normalize-is_terminal raw = elim (label_cases raw "filled") [
  | inl p ↦ rw p
  | inr a ↦ elim (label_cases raw "canceled") [
    | inl p ↦ rw p
    | inr b ↦ elim (label_cases raw "pending_cancel") [
      | inl p ↦ rw p
      | inr c ↦ elim (label_cases raw "rejected") [
        | inl p ↦ rw p
        | inr d ↦ elim (label_cases raw "expired") [
          | inl p ↦ rw p
          | inr e ↦ elim (label_cases raw "done_for_day") [
            | inl p ↦ rw p
            | inr f ↦ elim (Bool-cases (is_one_of raw accepted_labels)) [
              | inl q ↦ rw (a, b, c, d, e, f, q)
              | inr q ↦ elim (Bool-cases (str_eq raw "partially_filled")) [
                | inl r ↦ rw (a, b, c, d, e, f, q, r)
                | inr r ↦ rw (a, b, c, d, e, f, q, r)
              ]
            ]
          ]
        ]
      ]
    ]
  ]
]
