-- ===== src/Config/Brokers.antt =====
-- The broker list of internal/config/kafka.go.
use ingest.Prelude.{
  All, GoString, List, List-cases, [], ap, inl, inr, nat_key, refl, text_key, ◌++◌, ◌∙◌, ◌∷◌, ◌≡◌,
  ◌≢◌,
}
use ingest.GoStrings.{split_byte, trim_space}
use ingest.GoStrings.Trim.{IsTrimmed, trim_space-IsTrimmed, trim_space-eq, trim_space_infix}
use ingest.GoStrings.Split.{Lacks, Lacks-append, join_byte, split_byte-Lacks, split_byte-join_byte}
use ingest.Config.{Config, kafka_brokers, named_brokers}

-- Names that are not blank, hold no comma and have no white space at their ends.
abbrev pub IsBrokerName : GoString → Type 0
IsBrokerName b = (b ≢ []) × Lacks 44 b × IsTrimmed b

abbrev pub AreBrokers : List GoString → Type 0
AreBrokers = All IsBrokerName

named_brokers-AreBrokers :
    (parts : List GoString) → All (Lacks 44) parts → AreBrokers (named_brokers parts)
unfolding named_brokers
named_brokers-AreBrokers [] h = tt
named_brokers-AreBrokers (part ∷ parts) h =
    let ih = named_brokers-AreBrokers parts h.1 in
    elim (List-cases (trim_space part)) [
      | inl e ↦ rw (e, named_brokers) ih
      | inr (c, b, e) ↦
          let (p, q, infix_of) = trim_space_infix part in
          let inner = (Lacks-append 44 p (trim_space part ++ q) (rw infix_of at h.0)).1 in
          let bare = (Lacks-append 44 (trim_space part) q inner).0 in
          rw (e, named_brokers)
            (((λ x. cc x), rw e at bare, rw e at (trim_space-IsTrimmed part)), ih)
    ]

pub kafka_brokers-AreBrokers : (c : Config) → AreBrokers (kafka_brokers c)
unfolding kafka_brokers
kafka_brokers-AreBrokers c =
    named_brokers-AreBrokers (split_byte 44 [] c.kafka.broker_list)
      (split_byte-Lacks 44 [] c.kafka.broker_list refl)

named_brokers-eq : (bs : List GoString) → AreBrokers bs → named_brokers bs ≡ bs
unfolding named_brokers
named_brokers-eq [] h = refl
named_brokers-eq ([] ∷ bs) h = absurd (h.0.0 refl)
named_brokers-eq ((c ∷ b) ∷ bs) h =
    rw (trim_space-eq (c ∷ b) h.0.2, named_brokers) (ap (◌∷◌ (c ∷ b)) (named_brokers-eq bs h.1))

-- A configuration with another broker list.
abbrev pub with_broker_list : Config → GoString → Config
with_broker_list c list = record c { kafka = record (c.kafka) { broker_list = list } }

each_Lacks : (bs : List GoString) → AreBrokers bs → All (Lacks 44) bs
each_Lacks [] h = tt
each_Lacks (b ∷ bs) h = (h.0.1, each_Lacks bs h.1)

-- A list of brokers that are not blank, hold no comma and have no white space at their ends is
-- read back from its text with commas between them.
pub kafka_brokers-join_byte :
    (c : Config) (bs : List GoString)
    → AreBrokers bs
    → kafka_brokers (with_broker_list c (join_byte 44 bs)) ≡ bs
unfolding kafka_brokers join_byte
kafka_brokers-join_byte c [] h = unfold trim_space in refl
kafka_brokers-join_byte c (b ∷ bs) h =
    ap named_brokers (split_byte-join_byte 44 b bs (each_Lacks (b ∷ bs) h))
    ∙ named_brokers-eq (b ∷ bs) h
