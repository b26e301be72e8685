-- ===== src/Daemon/Tests.antt =====
-- A command line, a disk with one account, and the bytes of a token.
use warp_proxy.Base.{
  ℕ, ◌≡◌, refl, ap, ◌∙◌, true, List, [], ◌∷◌, Option, none, some, length, ◌==◌, if◌then◌else◌, take,
  drop, take-append, drop-append, zero, suc, ◌++◌,
}
use warp_proxy.Config.{WarpConfig}
use warp_proxy.Registration.{ok, or_err, and_then}
use warp_proxy.Registration.Client.Tests.{toy, session, the_config}
use warp_proxy.Daemon.{Disk, load_or_register, accounts_from, account, persisted, load}
use warp_proxy.Daemon.Accounts.{load_or_register-again}

-- A text behind its length, and what follows it.
abbrev put : List ℕ → List ℕ → List ℕ
put l rest = length l ∷ l ++ rest

abbrev get : List ℕ → List ℕ × List ℕ
get [] = ([], [])
get (n ∷ t) = (take n t, drop n t)

get-put : (l rest : List ℕ) → get (put l rest) ≡ (l, rest)
get-put l rest = λ j. (take-append l rest (length l) refl j, drop-append l rest (length l) refl j)

put_all : List (List ℕ) → List ℕ
put_all [] = []
put_all (l ∷ ls) = put l (put_all ls)

abbrev parts_of : WarpConfig → List (List ℕ)
parts_of c =
    c.private_key ∷ c.endpoint_v4 ∷ c.endpoint_v6 ∷ c.endpoint_h2_v4 ∷ c.endpoint_h2_v6
    ∷ c.endpoint_pub_key ∷ c.id ∷ c.access_token ∷ c.ipv4 ∷ c.ipv6 ∷ []

write_config : WarpConfig → List ℕ
write_config c = put_all (parts_of c)

ten : ℕ → List ℕ → List (List ℕ)
ten zero t = []
ten (suc k) t = (get t).0 ∷ ten k (get t).1

of_parts : List (List ℕ) → Option WarpConfig
of_parts (a ∷ b ∷ c ∷ d ∷ e ∷ f ∷ g ∷ h ∷ i ∷ j ∷ []) = some (record {
  private_key = a;
  endpoint_v4 = b;
  endpoint_v6 = c;
  endpoint_h2_v4 = d;
  endpoint_h2_v6 = e;
  endpoint_pub_key = f;
  id = g;
  access_token = h;
  ipv4 = i;
  ipv6 = j;
})
of_parts _ = none

read_config : List ℕ → Option WarpConfig
unfolding ten of_parts
read_config t = of_parts (ten 10 t)

step : (k : ℕ) (l rest : List ℕ) → ten (suc k) (put l rest) ≡ l ∷ ten k rest
unfolding ten
step k l rest = λ j. (get-put l rest j).0 ∷ ten k (get-put l rest j).1

ten-put_all : (ls : List (List ℕ)) → ten (length ls) (put_all ls) ≡ ls
unfolding ten put_all
ten-put_all [] = refl
ten-put_all (l ∷ ls) = step (length ls) l (put_all ls) ∙ ap (λ m. l ∷ m) (ten-put_all ls)

read-write : (c : WarpConfig) → read_config (write_config c) ≡ some c
unfolding read_config write_config of_parts
read-write c = ap of_parts (ten-put_all (parts_of c))

abbrev the_disk : Disk toy
the_disk = record {
  session = session;
  files = λ i. if i == 1 then some (write_config the_config) else none;
  fails = λ i. none;
}

loads :
    load_or_register toy write_config read_config true 1 the_disk ≡ (ok (the_config ∷ []), the_disk)
unfolding load_or_register accounts_from account persisted load
loads = rw (read-write the_config) (unfold and_then or_err in refl)

load_or_register-again_example :
    (length (the_config ∷ []) ≡ 1)
    × (load_or_register toy write_config read_config true 1 the_disk
        ≡ (ok (the_config ∷ []), the_disk))
load_or_register-again_example =
    load_or_register-again toy write_config read_config read-write 1 the_disk the_disk the_disk
      (the_config ∷ []) loads (λ j content h. h)
