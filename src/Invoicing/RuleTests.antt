-- ===== src/Invoicing/RuleTests.antt =====
-- The theorems on stored rules and invoice requests, on a small database.
use settlement.Base.{ok, err, refl, ◌≡◌, [], ◌∷◌, true, panicked}
use settlement.Base.Int.{pos}
use settlement.Base.Text.{codes, is_space, is_empty, trim_space, text_eq}
use settlement.Money.{amount}
use settlement.Money.Decimal.{decimal_units}
use settlement.Ledger.InvoiceTables.{SettlementSettings}
use settlement.Ledger.Access.{allows}
use settlement.Ledger.Db.{Db}
use settlement.Ledger.Claims.{audit}
use settlement.Ledger.Settings.{
  default_settings, put_settings, validate_settings, validate_tax_rates,
}
use settlement.Ledger.Samples.{start, user}
use settlement.Invoicing.Submit.{CheckedRequest, check_request, insert_review}
use settlement.Invoicing.Threshold.{stored_blank_panics}
use settlement.Invoicing.Tests.{by_hand, plain, submitted_db}

-- The threshold 500 with a blank before it.
abbrev blank_rules : SettlementSettings
blank_rules = record default_settings { special_invoice_threshold = b' ' ∷ codes "500" }

ruled_db : Db
unfolding put_settings
ruled_db = elim (put_settings (user 10) 700 701 blank_rules start) [ ok r ↦ r.1 | err e ↦ start ]

ruling :
    put_settings (user 10) 700 701 blank_rules start
    ≡ ok (record blank_rules { version = pos 1 }, ruled_db)
unfolding ruled_db put_settings validate_settings amount decimal_units trim_space text_eq audit
    allows
ruling = refl

abbrev small : CheckedRequest
small = record {
  snapshot = 1;
  buyer = [];
  invoice_type = codes "PAPER";
  invoice = record {
    items =
        record {
          item_name = codes "work";
          tax_classification_code = codes "304";
          specification = [];
          unit = codes "h";
          quantity = 1000000;
          unit_price_excl_tax = 10000000;
          amount_excl_tax = 1000;
          tax_rate = 60000;
          tax_amount = 60;
          amount_incl_tax = 1060;
        }
        ∷ [];
    excl = 1000;
    tax = 60;
    incl = 1060;
  };
  shares = (3, 1060) ∷ [];
  special_reason = [];
}

space-is_space : is_space b' ' ≡ true
unfolding is_space
space-is_space = refl

no_reason : is_empty (trim_space []) ≡ true
unfolding trim_space
no_reason = refl

rated : validate_tax_rates small.invoice.items blank_rules.tax_rates ≡ ok tt
unfolding validate_tax_rates decimal_units
rated = refl

stored_blank_panics_example : insert_review 1 400 small ruled_db ≡ err panicked
stored_blank_panics_example =
    stored_blank_panics (user 10) 700 701 400 blank_rules (record blank_rules { version = pos 1 })
      b' ' (codes "500") small start ruled_db ruled_db tt refl space-is_space ruling refl no_reason
      rated

blank_db : Db
unfolding put_settings
blank_db = elim (put_settings (user 10) 800 801 blank_rules submitted_db) [
  | ok r ↦ r.1
  | err e ↦ submitted_db
]

plain_checked : CheckedRequest
unfolding check_request
plain_checked = elim (check_request by_hand (user 10) (codes "i1") plain) [
  | ok c ↦ c
  | err e ↦ record {
    snapshot = 0;
    buyer = [];
    invoice_type = [];
    invoice = record { items = []; excl = 0; tax = 0; incl = 0 };
    shares = [];
    special_reason = [];
  }
]
