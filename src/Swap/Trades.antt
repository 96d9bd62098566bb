-- ===== src/Swap/Trades.antt =====
-- pallets/swap/src/lib.rs: a swap writes the assets' storage, by transfers, and events.
use konomi_node.Base.{ℕ, Bool, Origin, Outcome, ok, err, panic}
use konomi_node.Base.Keeps.{Keeps, Ends, keeps_rules}
use konomi_node.Assets.State as Ledger
use konomi_node.Assets.Calls as Assets
use konomi_node.Swap.State.{Exchange, Config, Error, Event, transfer, deposit_event}
use konomi_node.Swap.Pricing.{
  calc_output_at_known_input, calc_input_at_known_output, calc_inherent_asset_input_amount,
  calc_inherent_asset_output_amount, calc_paired_asset_input_amount,
  calc_paired_asset_output_amount,
}
use konomi_node.Swap.Exchange.{
  report_reserves, inherent_asset_to_paired_asset_with_exact_input,
  inherent_asset_to_paired_asset_with_exact_output, paired_asset_to_inherent_asset_with_exact_input,
  paired_asset_to_inherent_asset_with_exact_output, asset_a_to_asset_b_with_exact_input,
  asset_a_to_asset_b_with_exact_output,
}
use konomi_node.Swap.Calls.{swap_assets_with_exact_input, swap_assets_with_exact_output}

-- A predicate on the pallet's storage that transfers keep, and events.
pub record IsTraded (t : Config) (P : Exchange → Type 0) : Type 0 where
  pub transfers : (from id to amount : ℕ) → Keeps P (transfer t.checks from id to amount)
  pub events : (e : Event) → Keeps P (deposit_event e)

module _ (t : Config) (P : Exchange → Type 0) (traded : IsTraded t P) where
  quote_output : (a i o f : ℕ) → Keeps P (calc_output_at_known_input t a i o f)
  unfolding calc_output_at_known_input
  quote_output a i o f = search keeps_rules depth 20

  quote_input : (a i o f : ℕ) → Keeps P (calc_input_at_known_output t a i o f)
  unfolding calc_input_at_known_output
  quote_input a i o f = search keeps_rules depth 20

  inherent_input : (id a f : ℕ) → Keeps P (calc_inherent_asset_input_amount t id a f)
  unfolding calc_inherent_asset_input_amount
  inherent_input id a f = search (keeps_rules, quote_input) depth 20

  inherent_output : (id a f : ℕ) → Keeps P (calc_inherent_asset_output_amount t id a f)
  unfolding calc_inherent_asset_output_amount
  inherent_output id a f = search (keeps_rules, quote_output) depth 20

  paired_input : (id a f : ℕ) → Keeps P (calc_paired_asset_input_amount t id a f)
  unfolding calc_paired_asset_input_amount
  paired_input id a f = search (keeps_rules, quote_input) depth 20

  paired_output : (id a f : ℕ) → Keeps P (calc_paired_asset_output_amount t id a f)
  unfolding calc_paired_asset_output_amount
  paired_output id a f = search (keeps_rules, quote_output) depth 20

  pub report-Keeps : (address a b : ℕ) → Keeps P (report_reserves address a b)
  unfolding report_reserves
  report-Keeps address a b = search (keeps_rules, traded.events) depth 20

  ruleset trade_rules =
      (keeps_rules, report-Keeps, inherent_input, inherent_output, paired_input, paired_output)

  to_paired_input :
      (i o b n m f : ℕ) → Keeps P (inherent_asset_to_paired_asset_with_exact_input t i o b n m f)
  unfolding inherent_asset_to_paired_asset_with_exact_input
  to_paired_input i o b n m f =
      search (trade_rules, traded.transfers, traded.events) depth 40 fits 5000

  to_paired_output :
      (i o b n m f : ℕ) → Keeps P (inherent_asset_to_paired_asset_with_exact_output t i o b n m f)
  unfolding inherent_asset_to_paired_asset_with_exact_output
  to_paired_output i o b n m f =
      search (trade_rules, traded.transfers, traded.events) depth 40 fits 5000

  to_inherent_input :
      (i o b n m f : ℕ) → Keeps P (paired_asset_to_inherent_asset_with_exact_input t i o b n m f)
  unfolding paired_asset_to_inherent_asset_with_exact_input
  to_inherent_input i o b n m f =
      search (trade_rules, traded.transfers, traded.events) depth 40 fits 5000

  to_inherent_output :
      (i o b n m f : ℕ) → Keeps P (paired_asset_to_inherent_asset_with_exact_output t i o b n m f)
  unfolding paired_asset_to_inherent_asset_with_exact_output
  to_inherent_output i o b n m f =
      search (trade_rules, traded.transfers, traded.events) depth 40 fits 5000

  across_input : (i o a b n m f : ℕ) → Keeps P (asset_a_to_asset_b_with_exact_input t i o a b n m f)
  unfolding asset_a_to_asset_b_with_exact_input
  across_input i o a b n m f =
      search (trade_rules, traded.transfers, traded.events) depth 40 fits 5000

  across_output :
      (i o a b n m f : ℕ) → Keeps P (asset_a_to_asset_b_with_exact_output t i o a b n m f)
  unfolding asset_a_to_asset_b_with_exact_output
  across_output i o a b n m f =
      search (trade_rules, traded.transfers, traded.events) depth 40 fits 5000

  ruleset swap_rules = (
    keeps_rules, to_paired_input, to_paired_output, to_inherent_input, to_inherent_output,
    across_input, across_output,
  )

  pub exact_input-Keeps :
      (r : Origin) (o i j n m : ℕ) → Keeps P (swap_assets_with_exact_input t r o i j n m)
  unfolding swap_assets_with_exact_input
  exact_input-Keeps r o i j n m = search swap_rules depth 40 fits 5000

  pub exact_output-Keeps :
      (r : Origin) (o i j n m : ℕ) → Keeps P (swap_assets_with_exact_output t r o i j n m)
  unfolding swap_assets_with_exact_output
  exact_output-Keeps r o i j n m = search swap_rules depth 40 fits 5000

moved-Ends :
    (P : Exchange → Type 0) (s : Exchange) (o : Outcome Ledger.Error Ledger.State (Unit {0}))
    → Ends (λ a. P (record s { assets = a })) o
    → Ends P (elim o as (λ _. Outcome Error Exchange (Unit {0})) [
      | ok _ assets ↦ ok tt (record s { assets = assets })
      | err _ assets ↦ ok tt (record s { assets = assets })
      | panic ↦ panic
    ])
moved-Ends P s (ok _ a) h = h
moved-Ends P s (err _ a) h = h
moved-Ends P s panic h = tt

-- What the assets pallet's transfer keeps of its storage.
pub transfer-Keeps :
    (P : Ledger.State → Type 0) (checks : Bool) (from id to amount : ℕ)
    → Keeps P (Assets.transfer checks from id to amount)
    → Keeps (λ (s : Exchange). P s.assets) (transfer checks from id to amount)
unfolding transfer
transfer-Keeps P checks from id to amount k = record {
  at = λ s h.
      moved-Ends (λ u. P u.assets) s (Assets.transfer checks from id to amount s.assets)
        (k.at s.assets h);
}

any_end : {E S A : Type 0} {P : S → Type 0} (o : Outcome E S A) → ((s : S) → P s) → Ends P o
any_end (ok _ s) h = h s
any_end (err _ s) h = h s
any_end panic h = tt

-- A transfer keeps what does not look at the assets' storage.
pub transfer-Keeps_else :
    (P : Exchange → Type 0) (checks : Bool) (from id to amount : ℕ)
    → ((s : Exchange) (a : Ledger.State) → P s → P (record s { assets = a }))
    → Keeps P (transfer checks from id to amount)
unfolding transfer
transfer-Keeps_else P checks from id to amount k = record {
  at = λ s h.
      moved-Ends P s (Assets.transfer checks from id to amount s.assets)
        (any_end (Assets.transfer checks from id to amount s.assets) (λ a. k s a h));
}
