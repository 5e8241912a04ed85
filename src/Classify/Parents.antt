-- ===== src/Classify/Parents.antt =====
-- core/normalize/classify.go, `DefaultParents`: the tools whose subcommand is kept.
use hunch.Base.{List, [], ◌∷◌, Bytes, codes}

abbrev pub default_parents : List Bytes
default_parents =
    codes "git"
    ∷ codes "hg"
    ∷ codes "svn"
    ∷ codes "pijul"
    ∷ codes "fossil"
    ∷ codes "jj"
    ∷ codes "cargo"
    ∷ codes "npm"
    ∷ codes "yarn"
    ∷ codes "pnpm"
    ∷ codes "yarnpkg"
    ∷ codes "pip"
    ∷ codes "pip3"
    ∷ codes "pipenv"
    ∷ codes "poetry"
    ∷ codes "uv"
    ∷ codes "go"
    ∷ codes "rustup"
    ∷ codes "mvn"
    ∷ codes "gradle"
    ∷ codes "sbt"
    ∷ codes "ant"
    ∷ codes "dotnet"
    ∷ codes "nuget"
    ∷ codes "brew"
    ∷ codes "apt"
    ∷ codes "apt-get"
    ∷ codes "apt-cache"
    ∷ codes "dpkg"
    ∷ codes "dnf"
    ∷ codes "yum"
    ∷ codes "rpm"
    ∷ codes "pacman"
    ∷ codes "pamac"
    ∷ codes "yay"
    ∷ codes "paru"
    ∷ codes "snap"
    ∷ codes "flatpak"
    ∷ codes "choco"
    ∷ codes "scoop"
    ∷ codes "winget"
    ∷ codes "apk"
    ∷ codes "zypper"
    ∷ codes "xbps"
    ∷ codes "emerge"
    ∷ codes "corepack"
    ∷ codes "bazel"
    ∷ codes "bazelisk"
    ∷ codes "meson"
    ∷ codes "please"
    ∷ codes "nix"
    ∷ codes "nix-env"
    ∷ codes "guix"
    ∷ codes "mise"
    ∷ codes "rtx"
    ∷ codes "asdf"
    ∷ codes "fnm"
    ∷ codes "volta"
    ∷ codes "n"
    ∷ codes "pyenv"
    ∷ codes "rbenv"
    ∷ codes "jenv"
    ∷ codes "nodenv"
    ∷ codes "goenv"
    ∷ codes "tfenv"
    ∷ codes "docker"
    ∷ codes "podman"
    ∷ codes "lxc"
    ∷ codes "lxd"
    ∷ codes "incus"
    ∷ codes "kubectl"
    ∷ codes "kubectx"
    ∷ codes "kubens"
    ∷ codes "helm"
    ∷ codes "istioctl"
    ∷ codes "linkerd"
    ∷ codes "k9s"
    ∷ codes "stern"
    ∷ codes "kustomize"
    ∷ codes "argocd"
    ∷ codes "flux"
    ∷ codes "kind"
    ∷ codes "k3d"
    ∷ codes "minikube"
    ∷ codes "skaffold"
    ∷ codes "tilt"
    ∷ codes "buildah"
    ∷ codes "skopeo"
    ∷ codes "crane"
    ∷ codes "aws"
    ∷ codes "gcloud"
    ∷ codes "az"
    ∷ codes "heroku"
    ∷ codes "flyctl"
    ∷ codes "doctl"
    ∷ codes "oci"
    ∷ codes "ibmcloud"
    ∷ codes "hcloud"
    ∷ codes "vultr"
    ∷ codes "scaleway"
    ∷ codes "terraform"
    ∷ codes "tofu"
    ∷ codes "packer"
    ∷ codes "waypoint"
    ∷ codes "pulumi"
    ∷ codes "bicep"
    ∷ codes "ansible"
    ∷ codes "ansible-playbook"
    ∷ codes "vault"
    ∷ codes "consul"
    ∷ codes "nomad"
    ∷ codes "boundary"
    ∷ codes "systemctl"
    ∷ codes "journalctl"
    ∷ codes "loginctl"
    ∷ codes "timedatectl"
    ∷ codes "hostnamectl"
    ∷ codes "localectl"
    ∷ codes "networkctl"
    ∷ codes "resolvectl"
    ∷ codes "bluetoothctl"
    ∷ codes "tmux"
    ∷ codes "screen"
    ∷ codes "zellij"
    ∷ codes "tmuxp"
    ∷ codes "gh"
    ∷ codes "glab"
    ∷ codes "bw"
    ∷ codes "pass"
    ∷ codes "gpg"
    ∷ codes "ssh-keygen"
    ∷ codes "openssl"
    ∷ codes "trivy"
    ∷ codes "op"
    ∷ codes "cosign"
    ∷ codes "sops"
    ∷ codes "amtool"
    ∷ codes "promtool"
    ∷ codes "logcli"
    ∷ codes "vector"
    ∷ codes "adb"
    ∷ codes "fastboot"
    ∷ codes "expo"
    ∷ codes "flutter"
    ∷ codes "dart"
    ∷ codes "react-native"
    ∷ codes "cordova"
    ∷ codes "capacitor"
    ∷ codes "ionic"
    ∷ codes "electron"
    ∷ codes "electron-builder"
    ∷ codes "electron-forge"
    ∷ codes "deno"
    ∷ codes "bun"
    ∷ codes "vite"
    ∷ codes "webpack"
    ∷ codes "rollup"
    ∷ codes "parcel"
    ∷ codes "esbuild"
    ∷ codes "nx"
    ∷ codes "turbo"
    ∷ codes "lerna"
    ∷ codes "rush"
    ∷ codes "biome"
    ∷ codes "vitest"
    ∷ codes "jest"
    ∷ codes "mocha"
    ∷ codes "playwright"
    ∷ codes "cypress"
    ∷ codes "storybook"
    ∷ codes "sqlite3"
    ∷ codes "mysql"
    ∷ codes "psql"
    ∷ codes "mongosh"
    ∷ codes "redis-cli"
    ∷ codes "rclone"
    ∷ codes "restic"
    ∷ codes "kopia"
    ∷ codes "crontab"
    ∷ codes "at"
    ∷ codes "systemd-analyze"
    ∷ []
