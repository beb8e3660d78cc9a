-- ===== src/Samples/NetworkExamples.antt =====
-- The network plan and the firewall of the sample host.
use devplat_agent.Base.{◌+◌, ◌*◌, ◌≡◌, refl, arith, map}
use devplat_agent.Base.Int.{pos}
use devplat_agent.Network.Address.{to_word}
use devplat_agent.Network.Derive.{derive_net_config}
use devplat_agent.Network.Derive.Separation.{Apart, derive-Apart, derive_in_pool}
use devplat_agent.Network.Firewall.{setup_steps, teardown_steps}
use devplat_agent.Network.Firewall.Teardown.{as_delete, teardown_mirrors_setup}
use devplat_agent.Samples.{config}

derive-Apart_example : Apart (derive_net_config config (pos 0)) (derive_net_config config (pos 3))
derive-Apart_example = derive-Apart config 0 3 (omega arith) (omega arith) (omega arith)

derive_in_pool_example :
    let nc = derive_net_config config (pos 5) in
    (nc.host_ip.b0 ≡ 172)
    × (nc.host_ip.b1 ≡ 20)
    × (nc.guest_ip.b0 ≡ 172)
    × (nc.guest_ip.b1 ≡ 20)
    × (to_word nc.host_ip ≡ to_word config.tap_ip_base + 5 * 4 + 1)
    × (to_word nc.guest_ip ≡ to_word config.tap_ip_base + 5 * 4 + 2)
derive_in_pool_example =
    derive_in_pool config 5
      (record { lt0 = omega arith; lt1 = omega arith; lt2 = omega arith; lt3 = omega arith }) refl
      refl (omega arith)

teardown_mirrors_setup_example :
    let nc = derive_net_config config (pos 1) in
    teardown_steps config nc ≡ map as_delete (setup_steps config nc)
teardown_mirrors_setup_example = teardown_mirrors_setup config (derive_net_config config (pos 1))
