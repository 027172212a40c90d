-- ===== src/Examples/Requests.antt =====
-- The table of the file server after `serve_init`.
use raspberry_pi_3_jos.Prelude.{ℕ, ◌≡◌, ◌≢◌, ◌⊎◌, ◌<◌, some, []}
use raspberry_pi_3_jos.Prelude.State.{ok, err}
use raspberry_pi_3_jos.Serve.{
  Server, maxopen, e_inval, e_max_open, serve_init, open_alloc, open_lookup,
}
use raspberry_pi_3_jos.Serve.Table.{IsTable, serve_init-IsTable, open_alloc-open_lookup}
use raspberry_pi_3_jos.Examples.Files.{small}

abbrev started : Server
started = record {
  fs = small;
  o_file = λ _. 0;
  o_fileid = λ _. 0;
  o_mode = λ _. 0;
  o_ff = λ _. 0;
  sent = [];
}

serve_init_example : IsTable (serve_init started)
serve_init_example = serve_init-IsTable started

open_alloc_example :
    ((o : ℕ) × (t : Server) × (open_alloc (λ _. 1) (serve_init started) ≡ some (ok o, t))
      × (o < maxopen)
      × IsTable t
      × ((refs' : ℕ → ℕ) → refs' (t.o_ff o) ≢ 1 → open_lookup refs' (t.o_fileid o) t ≡ ok o)
      × ((refs' : ℕ → ℕ) → open_lookup refs' ((serve_init started).o_fileid o) t ≡ err e_inval))
    ⊎ (open_alloc (λ _. 1) (serve_init started) ≡ some (err e_max_open, serve_init started))
      × ((j : ℕ) → j < maxopen → 1 < 1)
open_alloc_example =
    open_alloc-open_lookup (λ _. 1) (serve_init started) (serve_init-IsTable started)
