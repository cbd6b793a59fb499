-- ===== src/Httpapi/CloudInit.antt =====
-- The cloud-init scripts that a new server runs, as text: `cloudInit` of cp_vm.go and of
-- worker_vm.go.
use kt_cloud_operator.Common.{String, ◌<>◌, List, [], ◌∷◌}

abbrev concat : List String → String
concat [] = ""
concat (s ∷ rest) = s <> concat rest

unfoldable pub control_plane_cloud_init : String
control_plane_cloud_init = concat (
    "#cloud-config\n" ∷ "runcmd:\n"
    ∷ "  - export K8S_API=$(hostname -I | awk '{print $1}')  # Replace with y"
    ∷ "our actual K8s API server address\n"
    ∷ "  - export INTERNALIP=$(hostname -I | awk '{print $1}')\n" ∷ "  - sudo swapoff -a\n"
    ∷ "  - sudo sed -i '/\\bswap\\b/d' /etc/fstab\n" ∷ "  - sudo swapoff /swap.img\n"
    ∷ "  - sudo kubeadm init --control-plane-endpoint=\"${INTERNALIP}:6443\" ||"
    ∷ " echo \"kubeadm init failed\"\n" ∷ "  - if [ -f /etc/kubernetes/admin.conf ]; then\n"
    ∷ "      mkdir -p /home/ubuntu/.kube;\n"
    ∷ "      cp -i /etc/kubernetes/admin.conf /home/ubuntu/.kube/config;\n"
    ∷ "      chown $(id -u ubuntu):$(id -g ubuntu) /home/ubuntu/.kube/config;\n" ∷ "    else\n"
    ∷ "      echo \"admin.conf not found. kubeadm init may have failed.\";\n" ∷ "      exit;\n"
    ∷ "    fi\n" ∷ "  - mkdir -p /tmp/metadata\n" ∷ "  - cd /tmp/metadata\n"
    ∷ "  - CAHASH=$(openssl x509 -pubkey -in /etc/kubernetes/pki/ca.crt | ope"
    ∷ "nssl rsa -pubin -outform der 2>/dev/null | openssl dgst -sha256 -hex |"
    ∷ " sed 's/^.* //')\n" ∷ "  - TOKEN=$(kubeadm token list | awk '/authentication/{print $1}')\n"
    ∷ "  - cp /etc/kubernetes/admin.conf admin.conf\n"
    ∷ "  - cp /etc/kubernetes/pki/etcd/ca.crt etcd-ca.crt\n"
    ∷ "  - cp /etc/kubernetes/pki/etcd/ca.key etcd-ca.key\n"
    ∷ "  - cp /etc/kubernetes/pki/ca.crt ca.crt\n" ∷ "  - cp /etc/kubernetes/pki/ca.key ca.key\n"
    ∷ "  - cp /etc/kubernetes/pki/front-proxy-ca.crt front-proxy-ca.crt\n"
    ∷ "  - cp /etc/kubernetes/pki/front-proxy-ca.key front-proxy-ca.key\n"
    ∷ "  - cp /etc/kubernetes/pki/sa.key sa.key\n" ∷ "  - cp /etc/kubernetes/pki/sa.pub sa.pub\n"
    ∷ "  - echo \"${K8S_API} ${CAHASH} ${TOKEN}\" > k8s\n" ∷ "  - python3 -m http.server" ∷ [])

worker_script_head : String
worker_script_head = concat ("#cloud-config\n" ∷ "runcmd:\n" ∷ "  - export K8S_API=$(echo \"" ∷ [])

worker_script_tail : String
worker_script_tail = concat (
    "\")\n" ∷ "  - export DEFAULT_PORT=${DEFAULT_PORT:-8000}\n"
    ∷ "  - sudo swapoff -a && sudo sed -i '/\\bswap\\b/d' /etc/fstab && [ -f /s"
    ∷ "wap.img ] && sudo swapoff /swap.img\n" ∷ "  - count=0\n" ∷ "  - |\n" ∷ "    while :; do\n"
    ∷ "      if DATA=$(curl -s \"$K8S_API:$DEFAULT_PORT/k8s\"); then\n"
    ∷ "        export K8S_API=$(echo \"$DATA\" | cut -d' ' -f1)\n"
    ∷ "        export CAHASH=$(echo \"$DATA\" | cut -d' ' -f2)\n"
    ∷ "        export TOKEN=$(echo \"$DATA\" | cut -d' ' -f3)\n" ∷ "        break\n" ∷ "      fi\n"
    ∷ "      ((++count == 3600)) && break\n" ∷ "      sleep 1\n" ∷ "    done\n" ∷ "  - |\n"
    ∷ "    if [ -z \"$K8S_API\" ] || [ -z \"$CAHASH\" ] || [ -z \"$TOKEN\" ]; then\n"
    ∷ "      echo \"empty value\"; exit 0\n" ∷ "    fi\n" ∷ "  - |\n"
    ∷ "      sudo kubeadm join $K8S_API:6443 --token $TOKEN --discovery-token"
    ∷ "-ca-cert-hash sha256:$CAHASH" ∷ [])

unfoldable pub worker_cloud_init : String → String
unfolding worker_script_head worker_script_tail
worker_cloud_init control_plane_ip = worker_script_head <> (control_plane_ip <> worker_script_tail)
