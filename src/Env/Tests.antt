-- ===== src/Env/Tests.antt =====
-- The subnet file of a node, written and read back.
use flannel_ng.Base.{◌≡◌, refl, String, true, some, arith}
use flannel_ng.Base.Outcome.{ok}
use flannel_ng.Base.Word.{size}
use flannel_ng.Crates.Reference.{Block, reference, reference_laws}
use flannel_ng.Samples.{third, full_config}
use flannel_ng.Env.{write_subnet_file, read_from_subnet_env, prev_subnet}
use flannel_ng.Env.RoundTrip.{written_pairs, read_from_subnet_env-write_subnet_file}
use flannel_ng.Env.Previous.{prev_subnet-write_subnet_file}
use flannel_ng.Env.Decimal.{parse_block, show_block, block_text}

-- The file of the node that has 172.17.3.0/24.
written :
    (file : String) × (write_subnet_file reference show_block full_config true third 1450 ≡ ok file)
unfolding write_subnet_file
written = (_, refl)

read_from_subnet_env-write_subnet_file_example :
    (network : Block) × (full_config.network ≡ some network)
    × (read_from_subnet_env (some (written.0))
        ≡ written_pairs reference show_block network true third 1450)
read_from_subnet_env-write_subnet_file_example =
    read_from_subnet_env-write_subnet_file reference show_block full_config true third 1450
      block_text.plain refl (written.1)

prev_subnet-write_subnet_file_example :
    (n : Block) × (prev_subnet reference parse_block (some (written.0)) ≡ ok (some n))
    × (reference.prefix n ≡ 24)
    × (reference.network n ≡ 0xAC110300)
unfolding size
prev_subnet-write_subnet_file_example =
    prev_subnet-write_subnet_file reference reference_laws show_block parse_block block_text
      full_config true third 1450 refl (omega arith) refl (written.1)
