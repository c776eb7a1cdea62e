-- ===== src/Attestation/Vtpm/Machines.antt =====
-- src/attestation/VtpmAttestation.ts: the launch measurements of GCP's confidential machines.
use depa_kms_gcp_oidc.Prelude.{ℕ, String, List, [], ◌∷◌, map}

-- The launch measurement of a machine, for each vCPU count.
abbrev vcpus_1 : String
vcpus_1 =
    "9fee1c2d9279a6f330c728e17e5427685558604a141486dcb549da5b81c7492cdfd3fc4c1a3552bd9b6af65930b20641"

abbrev vcpus_2 : String
vcpus_2 =
    "7a5ed176bad8a9ff02cebb94b24b076a0b1905042a85d9fca7670d3a3ff466db3b1c2b76f8eca888f8d806d2ec92434e"

abbrev vcpus_4 : String
vcpus_4 =
    "ad532545a87f7ebba7ded856946f9f638d4395fe8ae6b82b694668774546fc4a5f3f7bf6eb389380743f39dffdf1bccc"

abbrev vcpus_8 : String
vcpus_8 =
    "0395ba843be8a2d2119eef812e562b9c26bcb1015fb465d448addd200dc90bb880f287ee367fddecedd89ce73162a62c"

abbrev vcpus_16 : String
vcpus_16 =
    "10f343779aa9a95ba781c9a39db9fde3ef611aeac8d2f516cc750f48a363a1bb67440dc8595e8dafa855326aa4356e4c"

abbrev vcpus_24 : String
vcpus_24 =
    "539a2d13373db75fd758219ec7c341ce9921b063d33efb88055f38bb4e4b7c3bf140d0a2589afa9292bfb6c7a787bafb"

abbrev vcpus_32 : String
vcpus_32 =
    "591b1103647089d793ffeaad653eaa2394972c09a4bc0178bf76b77860151b7b9c70856b0a36c4d421a74cf84a19944a"

abbrev vcpus_48 : String
vcpus_48 =
    "56df6081776e76d374152d5343060771f24acfdd75c3af4b360c91b9b26e43c2fab0a2157a5a746c929b2a342dbda54b"

abbrev vcpus_64 : String
vcpus_64 =
    "94cd8c643cf5ec38966b8243a908ddc2abea1b4922bd04d57ba0bb38df8f8f4ac7e6c70bad6d1672df81ccd2ee26605b"

abbrev vcpus_80 : String
vcpus_80 =
    "60ce03d7ee1a0fffcf3c865202371ba38856b6c1f2edcfb42ba0cc2e980d0eb15f18abd0450c34519ac73ca7c838855b"

abbrev vcpus_96 : String
vcpus_96 =
    "d4e07619f794b16a0e73ec742f947fdb773947082a5c506cf0fb1bfc63cb0aaa571eb792ad04e90d7601bc500373386e"

abbrev vcpus_112 : String
vcpus_112 =
    "182fe328f4abaccfde4b4041856a745577c22457018646eff585e1ba4c7179fa7b86abdb3d9f27d52b168ac924199bc3"

abbrev vcpus_128 : String
vcpus_128 =
    "ce64dfb5dcd3ad66bc488f5badb7b45b2374beb1f3926ea96fd59b62ac77ee9a802f7432ea6607d5772e166812d6a638"

abbrev pub gcp_vcpu_measurements : List (ℕ × String)
gcp_vcpu_measurements =
    (1, vcpus_1)
    ∷ ((2, vcpus_2)
        ∷ ((4, vcpus_4)
            ∷ ((8, vcpus_8)
                ∷ ((16, vcpus_16)
                    ∷ ((24, vcpus_24)
                        ∷ ((32, vcpus_32)
                            ∷ ((48, vcpus_48)
                                ∷ ((64, vcpus_64)
                                    ∷ ((80, vcpus_80)
                                        ∷ ((96, vcpus_96)
                                            ∷ ((112, vcpus_112) ∷ ((128, vcpus_128) ∷ []))))))))))))

abbrev pub gcp_valid_measurements : List String
gcp_valid_measurements = map (λ entry. entry.1) gcp_vcpu_measurements
