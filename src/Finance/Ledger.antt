-- ===== src/Finance/Ledger.antt =====
-- apps/api/src/modules/finance/domain/ledger.ts: the double-entry vocabulary. A `bigint` is a ℤ.
use system_delivery.Prelude.{Bool, true, false, Option, [], ◌∷◌, String, if◌then◌else◌}
use system_delivery.Prelude.Int.{ℤ, neg_ℤ}
use system_delivery.Prelude.Words.{narrow}

pub data AccountType : Type 0 where
  driver_cash hub_cash merchant_payable platform_revenue bank write_off : AccountType
  customer_receivable expense : AccountType

pub data OwnerType : Type 0 where
  driver hub merchant tenant : OwnerType

pub data Direction : Type 0 where
  debit credit : Direction

pub data EntryType : Type 0 where
  cod_collected cod_remitted settlement adjustment write_off reversal expense : EntryType

-- `===` on each of these unions.
abbrev pub same_direction : Direction → Direction → Bool
same_direction debit debit = true
same_direction credit credit = true
same_direction _ _ = false

abbrev pub same_owner_type : OwnerType → OwnerType → Bool
same_owner_type driver driver = true
same_owner_type hub hub = true
same_owner_type merchant merchant = true
same_owner_type tenant tenant = true
same_owner_type _ _ = false

abbrev pub same_account_type : AccountType → AccountType → Bool
same_account_type driver_cash driver_cash = true
same_account_type hub_cash hub_cash = true
same_account_type merchant_payable merchant_payable = true
same_account_type platform_revenue platform_revenue = true
same_account_type bank bank = true
same_account_type AccountType.write_off AccountType.write_off = true
same_account_type customer_receivable customer_receivable = true
same_account_type AccountType.expense AccountType.expense = true
same_account_type _ _ = false

abbrev pub same_entry_type : EntryType → EntryType → Bool
same_entry_type cod_collected cod_collected = true
same_entry_type cod_remitted cod_remitted = true
same_entry_type settlement settlement = true
same_entry_type adjustment adjustment = true
same_entry_type EntryType.write_off EntryType.write_off = true
same_entry_type reversal reversal = true
same_entry_type EntryType.expense EntryType.expense = true
same_entry_type _ _ = false

-- `NORMAL_BALANCE`
unfoldable pub normal_balance_for : AccountType → Direction
normal_balance_for driver_cash = debit
normal_balance_for hub_cash = debit
normal_balance_for bank = debit
normal_balance_for customer_receivable = debit
normal_balance_for AccountType.write_off = debit
normal_balance_for AccountType.expense = debit
normal_balance_for merchant_payable = credit
normal_balance_for platform_revenue = credit

unfoldable pub balance_delta : Direction → Direction → ℤ → ℤ
balance_delta normal_balance direction amount_minor =
    if same_direction direction normal_balance then amount_minor else neg_ℤ amount_minor

abbrev pub owner_type_name : OwnerType → String
owner_type_name driver = "DRIVER"
owner_type_name hub = "HUB"
owner_type_name merchant = "MERCHANT"
owner_type_name tenant = "TENANT"

abbrev pub account_type_name : AccountType → String
account_type_name driver_cash = "DRIVER_CASH"
account_type_name hub_cash = "HUB_CASH"
account_type_name merchant_payable = "MERCHANT_PAYABLE"
account_type_name platform_revenue = "PLATFORM_REVENUE"
account_type_name bank = "BANK"
account_type_name AccountType.write_off = "WRITE_OFF"
account_type_name customer_receivable = "CUSTOMER_RECEIVABLE"
account_type_name AccountType.expense = "EXPENSE"

abbrev pub direction_name : Direction → String
direction_name debit = "DEBIT"
direction_name credit = "CREDIT"

unfoldable pub to_owner_type : String → Option OwnerType
to_owner_type value = narrow owner_type_name (driver ∷ hub ∷ merchant ∷ tenant ∷ []) value

unfoldable pub to_account_type : String → Option AccountType
to_account_type value =
    narrow account_type_name
      (driver_cash ∷ hub_cash ∷ merchant_payable ∷ platform_revenue ∷ bank ∷ AccountType.write_off
        ∷ customer_receivable ∷ AccountType.expense ∷ [])
      value

unfoldable pub to_direction : String → Option Direction
to_direction value = narrow direction_name (debit ∷ credit ∷ []) value
