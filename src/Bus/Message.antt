-- ===== src/Bus/Message.antt =====
-- Addresses and messages of internal/bus/bus.go. Times are nanoseconds.
use avairy.Prelude.{ℕ, Bool, Text, codes, [], ◌∷◌, ◌++◌}
use avairy.Agent.{Delivery}

-- type ToKind
pub data ToKind : Type 0 where
  to_agent to_role to_broadcast to_team to_facilitator : ToKind

pub record Addr : Type 0 where
  pub kind : ToKind
  pub value : Text

abbrev pub sender_human : Text
sender_human = codes "human"

abbrev pub sender_facilitator : Text
sender_facilitator = codes "facilitator"

-- 2 * time.Second
abbrev pub dedup_window : ℕ
dedup_window = 2_000_000_000

pub record Message : Type 0 where
  pub id : Text
  pub from : Text
  pub to : Addr
  pub body : Text
  pub delivery : Delivery
  pub interrupt : Bool
  pub no_wake : Bool
  pub time : ℕ

-- "—" in UTF-8.
abbrev dash : Text
dash = 0xe2 ∷ 0x80 ∷ 0x94 ∷ []

-- AnnotateDelivery; the id, a number behind an m, needs no escape between its quotes. 34 is the
-- quote and 10 the newline.
unfoldable pub annotate_delivery : Text → ToKind → Text → Text
annotate_delivery id to_team body =
    codes "[team request "
    ++ (id
        ++ (codes " "
            ++ (dash
                ++ (codes " exactly ONE agent should handle this. Call claim_response("
                    ++ (34
                        ∷ (id
                            ++ (34
                                ∷ (codes ") BEFORE you act; if it returns "
                                    ++ (34
                                        ∷ (codes "denied"
                                            ++ (34
                                                ∷ (codes
                                                      ", another agent owns it: stand down and stay silent.]"
                                                    ++ (10 ∷ 10 ∷ body)))))))))))))
annotate_delivery id _ body = body
