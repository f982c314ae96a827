-- ===== src/Wifi/Refinement.antt =====
-- The saved networks as an abstract map from names to networks (Wifi/Manager).
use cardputer_codex_deck.Base.{
  ℕ, ◌+◌, ◌-◌, ◌≡◌, refl, ap, sym, ◌∙◌, Bool, ◌||◌, Option, none, some, List, [], ◌∷◌, Text,
  text_eq, ltb, if◌then◌else◌, length, arith, inl, inr, Bool-cases, Option-cases, lookup_by, subst,
}
use cardputer_codex_deck.Models.{WifiNetwork, max_wifi_networks}
use cardputer_codex_deck.Wifi.State.{WifiManager, WifiEnv}
use cardputer_codex_deck.Wifi.Scan.{saved_index, found}
use cardputer_codex_deck.Wifi.Manager.{add_and_connect, forget, connect_saved, tick}
use cardputer_codex_deck.Wifi.Invariant.{
  ssid_of, IsValid, InBounds, SortKeepsLength, connect_saved-InBounds, tick-InBounds,
}
use cardputer_codex_deck.Wifi.Saved.{HasSaved, connect_saved-saved, tick-saved}
use cardputer_codex_deck.Wifi.Networks.{has_room, add_and_connect-Added, forget-Forgotten}

-- What a user sees: the network that is saved under a name, and how many there are.
pub record Networks : Type 0 where
  pub entry : Text → Option WifiNetwork
  pub size : ℕ

-- What reaches the manager: the commands of the user, and a pass of the main loop.
pub data Command : Type 0 where
  adds : WifiEnv → Text → Text → Command
  forgets : WifiEnv → Text → Command
  connects : WifiEnv → ℕ → Command
  passes : WifiEnv → Command

abbrev pub is_known : Networks → Text → Bool
is_known a ssid = found (a.entry ssid)

-- The abstract commands: a network is replaced, or added while there are fewer than 8.
abbrev pub put : Text → Text → Networks → Networks
put ssid password a =
    if is_known a ssid || ltb a.size max_wifi_networks
    then record {
      entry = λ k.
          if text_eq ssid k then some (record { ssid = ssid; password = password }) else a.entry k;
      size = if is_known a ssid then a.size else a.size + 1;
    }
    else a

abbrev pub drop_network : Text → Networks → Networks
drop_network ssid a =
    if is_known a ssid
    then record { entry = λ k. if text_eq ssid k then none else a.entry k; size = a.size - 1 }
    else a

abbrev pub command : Command → Networks → Networks
command (adds env ssid password) a = put ssid password a
command (forgets env ssid) a = drop_network ssid a
command (connects env i) a = a
command (passes env) a = a

-- The manager's list stands for the map.
pub record Stands (m : WifiManager) (a : Networks) : Type 0 where
  pub entries : (k : Text) → lookup_by ssid_of m.saved k ≡ a.entry k
  pub count : length m.saved ≡ a.size

-- The manager's own commands.
unfoldable pub execute : Command → WifiManager → Option WifiManager
execute (adds env ssid password) m = (add_and_connect env ssid password m).0
execute (forgets env ssid) m = some (forget env ssid m).0
execute (connects env i) m = (connect_saved env i m).0
execute (passes env) m = tick env m

-- The result is there and valid, and stands for the map.
abbrev pub Refines : Option WifiManager → Networks → Type 0
Refines o a = (n : WifiManager) × (o ≡ some n) × IsValid n × Stands n a

found_index :
    (saved : List WifiNetwork) (ssid : Text)
    → found (saved_index saved ssid) ≡ found (lookup_by ssid_of saved ssid)
unfolding saved_index
found_index [] ssid = refl
found_index (n ∷ saved) ssid =
    let rest = found_index saved ssid in
    elim (Option-cases (saved_index saved ssid)) [
      | inl absent ↦ ground arith
      | inr (i, there) ↦ ground arith
    ]

-- A result with the same saved networks.
same_networks :
    {m : WifiManager} {a : Networks} {o : Option WifiManager}
    → Stands m a
    → HasSaved m.saved o
    → InBounds o
    → Refines o a
same_networks s h (n, result, v) =
    let same : n.saved ≡ _ = (subst (HasSaved _) result h).are in
    (
      n,
      result,
      v,
      record {
        entries = λ k. ap (λ l. lookup_by ssid_of l k) same ∙ s.entries k;
        count = ap length same ∙ s.count;
      },
    )

module _ {m : WifiManager} {a : Networks} (v : IsValid m) (s : Stands m a) where
  known_same : (ssid : Text) → found (saved_index m.saved ssid) ≡ is_known a ssid
  known_same ssid = found_index m.saved ssid ∙ ap found (s.entries ssid)

  add-Refines :
      (env : WifiEnv) (ssid password : Text)
      → Refines (add_and_connect env ssid password m).0 (put ssid password a)
  add-Refines env ssid password =
      let known = known_same ssid in
      let room : has_room m ssid ≡ (is_known a ssid || ltb a.size max_wifi_networks) =
        rw (known, s.count) refl in
      elim (Bool-cases (has_room m ssid)) [
        | inr full ↦
            rw (sym room ∙ full)
              (m, ap (λ r. r.0) ((add_and_connect-Added env ssid password m v).1 full), v, s)
        | inl free ↦
            let (n, result, added) = (add_and_connect-Added env ssid password m v).0 free in
            rw (sym room ∙ free) (
              n,
              ap (λ r. r.0) result,
              added.valid,
              record {
                entries = λ k.
                    added.networks k
                    ∙ ap
                        (λ e.
                          if text_eq ssid k
                          then some (record { ssid = ssid; password = password })
                          else e)
                        (s.entries k);
                count = added.size ∙ rw (known, s.count) refl;
              },
            )
      ]

  forget-Refines :
      (env : WifiEnv) (ssid : Text) → Refines (some (forget env ssid m).0) (drop_network ssid a)
  forget-Refines env ssid =
      let known = known_same ssid in
      elim (Bool-cases (found (saved_index m.saved ssid))) [
        | inr absent ↦
            let same = (forget-Forgotten env ssid m v).1 absent in
            rw (sym known ∙ absent) (rw same (m, refl, v, s))
        | inl there ↦
            let f = ((forget-Forgotten env ssid m v).0 there).1 in
            rw (sym known ∙ there) (
              _,
              refl,
              f.valid,
              record {
                entries =
                    λ k. f.networks k ∙ ap (λ e. if text_eq ssid k then none else e) (s.entries k);
                count = (let less = f.size in let size = s.count in omega arith);
              },
            )
      ]

-- `std::sort` keeps the number of networks in the passes.
abbrev pub Sorting : List Command → Type 0
Sorting [] = Unit {0}
Sorting (passes env ∷ cs) = SortKeepsLength env × Sorting cs
Sorting (_ ∷ cs) = Sorting cs

unfoldable pub executes : List Command → WifiManager → Option WifiManager
executes [] m = some m
executes (c ∷ cs) m = elim (execute c m) [ none ↦ none | some n ↦ executes cs n ]

abbrev pub commands : List Command → Networks → Networks
commands [] a = a
commands (c ∷ cs) a = commands cs (command c a)

then_executes :
    (c : Command) (cs : List Command) (m : WifiManager) {a b : Networks}
    → Refines (execute c m) a
    → ((n : WifiManager) → IsValid n → Stands n a → Refines (executes cs n) b)
    → Refines (executes (c ∷ cs) m) b
unfolding executes
then_executes c cs m (n, result, v, s) rest = rw (result, executes) (rest n v s)

-- From any valid state, in every history of `addAndConnect`, `forget`, `connectSaved` and passes of
-- the main loop, the saved networks are those of the abstract map after the same commands: a name
-- has the password that was last added for it, an added name is refused only where 8 others are
-- saved, a forgotten one is gone, and nothing else changes; if `std::sort` keeps the number of
-- networks.
pub executes-Refines :
    (cs : List Command) {m : WifiManager} {a : Networks}
    → Sorting cs
    → IsValid m
    → Stands m a
    → Refines (executes cs m) (commands cs a)
unfolding executes execute
executes-Refines [] sorts v s = (_, refl, v, s)
executes-Refines (adds env ssid password ∷ cs) {m} sorts v s =
    then_executes (adds env ssid password) cs m (add-Refines v s env ssid password)
      (λ n w t. executes-Refines cs sorts w t)
executes-Refines (forgets env ssid ∷ cs) {m} sorts v s =
    then_executes (forgets env ssid) cs m (forget-Refines v s env ssid)
      (λ n w t. executes-Refines cs sorts w t)
executes-Refines (connects env i ∷ cs) {m} sorts v s =
    then_executes (connects env i) cs m
      (same_networks s (connect_saved-saved env i m) (connect_saved-InBounds env i m v))
      (λ n w t. executes-Refines cs sorts w t)
executes-Refines (passes env ∷ cs) {m} sorts v s =
    then_executes (passes env) cs m
      (same_networks s (tick-saved env m) (tick-InBounds env m sorts.0 v))
      (λ n w t. executes-Refines cs sorts.1 w t)
