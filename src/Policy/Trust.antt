-- ===== src/Policy/Trust.antt =====
-- receipts-compiler/src/compiler/trust.rs: may an item enter a packet?
use agent_receipts.Prelude.{
  ◌≡◌, ◌↔◌, Bool, true, false, ◌||◌, String, arith, format, [], ◌∷◌, if◌then◌else◌,
}

pub data TrustDecision : Type 0 where
  allow deny review : TrustDecision

pub record PacketizableItem : Type 0 where
  pub kind : String
  pub contains_secret : Bool
  pub contains_pii : Bool
  pub needs_raw_drilldown : Bool

pub record TrustAssessment : Type 0 where
  pub decision : TrustDecision
  pub reason : String

unfoldable pub assess_packet_item : PacketizableItem → TrustAssessment
assess_packet_item item =
    if item.contains_secret || item.contains_pii
    then record {
      decision = deny;
      reason = "Item contains secret or PII material and must not be packetized.";
    }
    else if item.needs_raw_drilldown
    then record {
      decision = review;
      reason =
          "Item is useful but requires raw drilldown before promotion into the next-pass packet.";
    }
    else record { decision = allow; reason = format (item.kind ∷ " is safe to packetize." ∷ []) }

-- An item is allowed exactly when it holds neither secret nor personal data and needs no drill-down;
-- it is denied exactly when it holds secret or personal data, whatever else it needs.
pub assess_packet_item_iff :
    (item : PacketizableItem)
    → (((assess_packet_item item).decision ≡ allow) ↔ (
        (item.contains_secret ≡ false)
        × (item.contains_pii ≡ false)
        × (item.needs_raw_drilldown ≡ false)))
      × (((assess_packet_item item).decision ≡ deny)
          ↔ ((item.contains_secret || item.contains_pii) ≡ true))
unfolding assess_packet_item
assess_packet_item_iff item = ground arith
