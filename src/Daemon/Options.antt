-- ===== src/Daemon/Options.antt =====
-- The daemon's arguments.
use warp_proxy.Base.{ℕ, ◌≤◌, ◌≡◌, refl, arith, max, true, List, [], ◌∷◌, some}
use warp_proxy.Base.Text.{text, same}
use warp_proxy.Daemon.{parse_usize, set_accounts, with_value, without_value, read_args, parse_args}

-- What the texts of the options mean, for a command line that gives each once, in this order.
pub parse_args-all :
    (n socks control dir : List ℕ) (k : ℕ)
    → parse_usize n ≡ some k
    → parse_args (
        text "--accounts"
        ∷ n
        ∷ text "--socks"
        ∷ socks
        ∷ text "--http2"
        ∷ text "--control"
        ∷ control
        ∷ text "--state-dir"
        ∷ dir
        ∷ [])
      ≡ record {
        accounts = max k 1;
        socks = socks;
        control = control;
        state_dir = some dir;
        http2 = true;
      }
unfolding parse_args read_args with_value set_accounts without_value same
parse_args-all n socks control dir k e = rw (set_accounts, e) refl

-- The number of accounts is at least one, whatever the arguments are.
pub parse_args-accounts : (argv : List (List ℕ)) → 1 ≤ (parse_args argv).accounts
unfolding parse_args
parse_args-accounts argv = omega arith
