-- ===== src/Provision/Texts.antt =====
-- The fixed texts of src/provision.rs.
use malleus.Base.{◌++◌}
use malleus.Base.Text.{Text, codes}

-- `render_preseed` before and behind the address.
abbrev pub preseed_head : Text
preseed_head =
    codes
      "config:\n  core.https_address: \"[::]:8443\"\nnetworks:\n  - name: incusbr0\n    type: bridge\n    config:\n      ipv4.address: "

abbrev pub preseed_tail : Text
preseed_tail =
    codes
      "\n      ipv4.nat: \"true\"\n      ipv6.address: none\nstorage_pools:\n  - name: default\n    driver: btrfs\n    config:\n      source: /dev/vdb\nprofiles:\n  - name: default\n    devices:\n      eth0:\n        type: nic\n        network: incusbr0\n        name: eth0\n"

abbrev pub network_config : Text
network_config =
    codes "version: 2\n"
    ++ (codes "ethernets:\n"
        ++ (codes "  all:\n"
            ++ (codes "    match:\n"
                ++ (codes "      name: \"*\"\n" ++ (codes "    dhcp4: true\n")))))

-- The user data up to the network.
abbrev pub user_data_head : Text
user_data_head = codes "#cloud-config\n" ++ (codes "output: {all: '| tee /dev/hvc0'}\n")

abbrev pub network_head : Text
network_head = codes "network:\n"

abbrev pub boot_text : Text
boot_text =
    codes "bootcmd:\n"
    ++ (codes "  - [sh, -c, \"echo $(date) bootcmd started > /dev/hvc0\"]\n"
        ++ (codes "  - [ modprobe, virtio_console ]\n"
            ++ (codes "  - [ modprobe, virtiofs ]\n" ++ (codes "write_files:\n"))))

-- The lines before each file.
abbrev pub server_cert_head : Text
server_cert_head =
    codes "  - path: /var/lib/incus/server.crt\n"
    ++ (codes "    permissions: \"0644\"\n" ++ (codes "    content: |\n"))

abbrev pub server_key_head : Text
server_key_head =
    codes "  - path: /var/lib/incus/server.key\n"
    ++ (codes "    permissions: \"0600\"\n" ++ (codes "    content: |\n"))

abbrev pub client_cert_head : Text
client_cert_head =
    codes "  - path: /var/lib/malleus/client.crt\n"
    ++ (codes "    permissions: \"0644\"\n" ++ (codes "    content: |\n"))

abbrev pub preseed_file_head : Text
preseed_file_head =
    codes "  - path: /var/lib/malleus/preseed.yaml\n"
    ++ (codes "    permissions: \"0644\"\n" ++ (codes "    content: |\n"))

abbrev pub mounts_head : Text
mounts_head = codes "mounts:\n"

-- The line of a mount, around its tag.
abbrev pub mount_text : Text → Text
mount_text tag =
    codes "  - [ \""
    ++ (tag
        ++ (codes "\", \"/mnt/mac/"
            ++ (tag ++ codes "\", \"virtiofs\", \"defaults,_netdev\", \"0\", \"0\" ]\n")))

abbrev pub runcmd_head : Text
runcmd_head =
    codes "runcmd:\n"
    ++ (codes "  - [sh, -c, \"echo $(date) [malleus] runcmd started > /dev/hvc0\"]\n"
        ++ (codes "  - [sh, -c, \"dmesg | grep -iE 'virtio|eth0|enp' > /dev/hvc0\"]\n"))

-- The script that reports the address over the state share, around its tag.
abbrev pub report_text : Text → Text
report_text tag =
    codes
      "  - [sh, -c, \"(while true; do TAG=\\\"$1\\\"; DIR=\\\"/mnt/mac/$TAG\\\"; echo \\\"$(date) [malleus] checking network and mounting $TAG\\\" > /dev/hvc0; mkdir -p \\\"$DIR\\\"; if ! mountpoint -q \\\"$DIR\\\"; then mount -t virtiofs \\\"$TAG\\\" \\\"$DIR\\\" || echo \\\"$(date) [malleus] virtio-fs mount failed\\\" > /dev/hvc0; fi; if [ -d \\\"$DIR\\\" ]; then IP=$(ip -4 addr show | grep 'inet ' | grep -v '127.0.0.1' | head -n 1 | awk '{print $2}' | cut -d/ -f1); if [ -n \\\"$IP\\\" ]; then echo \\\"$IP\\\" > \\\"$DIR\\\"/guest-ip; echo \\\"Reported IP $IP via virtio-fs\\\" | tee -a \\\"$DIR\\\"/guest-ip.log > /dev/hvc0; break; fi; fi; sleep 2; done) &\", \"\", \""
    ++ (tag ++ codes "\"]\n")

abbrev pub vsock_text : Text
vsock_text =
    codes
      "  - [sh, -c, \"(while true; do IP=$(ip -4 addr show | grep 'inet ' | grep -v '127.0.0.1' | head -n 1 | awk '{print $2}' | cut -d/ -f1); if [ -n \\\"$IP\\\" ]; then echo \\\"[malleus] Network is UP with IP $IP\\\" > /dev/hvc0; ping -c 1 192.168.64.1 > /dev/hvc0 2>&1 || echo \\\"[malleus] Host ping failed\\\" > /dev/hvc0; if command -v socat >/dev/null 2>&1; then echo \\\"Reported IP $IP via vsock\\\" > /dev/hvc0; echo \\\"$IP\\\" | socat - VSOCK-LISTEN:5,reuseaddr; break; fi; fi; sleep 2; done) &\", \"\", \"\"]\n"

abbrev pub install_text : Text
install_text =
    codes "  - [mkdir, -p, /etc/apt/keyrings]\n"
    ++ (codes
          "  - [sh, -c, \"curl -fsSL https://pkgs.zabbly.com/key.asc -o /etc/apt/keyrings/zabbly.asc\"]\n"
        ++ (codes
              "  - [sh, -c, \"echo 'deb [signed-by=/etc/apt/keyrings/zabbly.asc] https://pkgs.zabbly.com/incus/stable /' > /etc/apt/sources.list.d/zabbly-incus-stable.list\"]\n"
            ++ (codes "  - [apt-get, update]\n"
                ++ (codes "  - [apt-get, install, -y, incus, socat]\n"
                    ++ (codes
                          "  - [sh, -c, \"incus admin init --preseed < /var/lib/malleus/preseed.yaml\"]\n"
                        ++ (codes
                            "  - [incus, config, trust, add-certificate, /var/lib/malleus/client.crt, --name, malleus-client, --type, client]\n"))))))

abbrev pub mkdir_text : Text → Text
mkdir_text tag = codes "  - [mkdir, -p, /mnt/mac/" ++ (tag ++ codes "]\n")

abbrev pub mount_all : Text
mount_all = codes "  - [mount, -a]\n"
